-- ===== src/Core/IdleWatchdog/Examples.antt =====
-- A watchdog of packages/core/src/policies.ts that is kicked once.
use open_claw_bot.Common.{◌≡◌, refl, List, [], ◌∷◌}
use open_claw_bot.Core.IdleWatchdog.{
  IdleEvent, kick, dispose, elapse, schedule, arm_timer, arm, timer_ended, elapse_at, idle_step,
  idle_calls,
}
use open_claw_bot.Core.IdleWatchdog.Fires.{due_call, idle_calls-due}

abbrev looks : List IdleEvent
looks = elapse 9 ∷ kick 9 ∷ elapse 10 ∷ elapse 20 ∷ kick 21 ∷ elapse 40 ∷ []

looks_run :
    (idle_calls 10 looks (arm 10 0) ≡ elapse 20 ∷ [])
    × (idle_calls 10 (dispose ∷ looks) (arm 10 0) ≡ [])
unfolding schedule arm_timer arm timer_ended elapse_at idle_step idle_calls
looks_run = (refl, refl)

idle_calls-due_example : idle_calls 10 looks (arm 10 0) ≡ due_call 10 0 looks
idle_calls-due_example = idle_calls-due 10 0 looks
