-- ===== src/Community/Push/Examples.antt =====
-- Five notifications for the queue of apps/community/push.mjs, and a close.
use open_claw_bot.Common.{ℕ, ◌≡◌, refl, List, [], ◌∷◌}
use open_claw_bot.Community.Push.{
  new_queue, pump_from, pump, enqueue_push, remove_first, finish, close_queue, Event, enqueues,
  finishes, closes, step, run,
}
use open_claw_bot.Community.Push.Bounded.{held, taken_by, IsSound, run-IsSound}

abbrev history : List Event
history = enqueues 1 ∷ enqueues 2 ∷ enqueues 3 ∷ enqueues 4 ∷ finishes 2 ∷ closes ∷ enqueues 5 ∷ []

pushes_run :
    let s = run history (new_queue 2) in
    (s.in_flight ≡ 1 ∷ 3 ∷ []) × (s.finished ≡ 2 ∷ []) × (s.refused ≡ 4 ∷ 5 ∷ [])
unfolding step new_queue enqueue_push finish close_queue pump pump_from remove_first
pushes_run = (refl, refl, refl)

run-IsSound_example :
    let s = run history (new_queue 2) in IsSound s × ((f : ℕ → ℕ) → held f s ≡ taken_by f history)
run-IsSound_example = run-IsSound 2 history
