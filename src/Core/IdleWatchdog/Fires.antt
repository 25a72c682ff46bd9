-- ===== src/Core/IdleWatchdog/Fires.antt =====
-- When the idle watchdog of packages/core/src/policies.ts calls back.
use open_claw_bot.Common.{
  ℕ, ◌+◌, ◌≡◌, refl, ap, inl, inr, true, false, none, some, List, [], ◌∷◌, if◌then◌else◌, leb,
  Bool-cases,
}
use open_claw_bot.Core.IdleWatchdog.{
  Watchdog, IdleEvent, kick, dispose, elapse, schedule, arm_timer, arm, timer_ended, elapse_at,
  idle_step, idle_calls,
}

-- The call that is due, told from the time of the last kick alone.
unfoldable pub due_call : ℕ → ℕ → List IdleEvent → List IdleEvent
due_call idle last [] = []
due_call idle last (kick t ∷ es) = due_call idle t es
due_call idle last (dispose ∷ es) = []
due_call idle last (elapse t ∷ es) =
    let rest = due_call idle last es in if leb (last + idle) t then elapse t ∷ [] else rest

abbrev ended : Watchdog
ended = record { timer = none; disposed = true }

abbrev armed : ℕ → Watchdog
armed due = record { timer = some due; disposed = false }

ended_calls_nothing : (idle : ℕ) (es : List IdleEvent) → idle_calls idle es ended ≡ []
unfolding idle_calls idle_step elapse_at
ended_calls_nothing idle [] = refl
ended_calls_nothing idle (kick t ∷ es) = ended_calls_nothing idle es
ended_calls_nothing idle (dispose ∷ es) = ended_calls_nothing idle es
ended_calls_nothing idle (elapse t ∷ es) = ended_calls_nothing idle es

armed_calls :
    (idle last : ℕ) (es : List IdleEvent)
    → idle_calls idle es (armed (last + idle)) ≡ due_call idle last es
unfolding idle_calls idle_step elapse_at arm_timer schedule timer_ended due_call
armed_calls idle last [] = refl
armed_calls idle last (kick t ∷ es) = armed_calls idle t es
armed_calls idle last (dispose ∷ es) = ended_calls_nothing idle es
armed_calls idle last (elapse t ∷ es) = elim (Bool-cases (leb (last + idle) t)) [
  | inl over ↦ rw over (ap (λ xs. elapse t ∷ xs) (ended_calls_nothing idle es))
  | inr early ↦ rw early (armed_calls idle last es)
]

-- A watchdog that is armed at `start` calls back at most once: at the first look of the event loop
-- at which the idle time has passed since the last kick, or since it was armed when there was
-- none, and never behind its disposal. This holds for every order of kicks, disposals and looks.
pub idle_calls-due :
    (idle start : ℕ) (es : List IdleEvent)
    → idle_calls idle es (arm idle start) ≡ due_call idle start es
unfolding arm arm_timer schedule
idle_calls-due idle start es = armed_calls idle start es
