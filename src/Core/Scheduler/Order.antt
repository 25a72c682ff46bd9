-- ===== src/Core/Scheduler/Order.antt =====
-- The order in which the queue of packages/core/src/run-scheduler.ts serves its tasks.
use mathlib.Core.List.{append_assoc, append-nil}
use open_claw_bot.Common.{
  ℕ, zero, suc, ◌+◌, ◌++◌, ◌≡◌, refl, Option, none, some, List, [], ◌∷◌, length, is_some,
  if◌then◌else◌, arith, length-append,
}
use open_claw_bot.Core.Scheduler.{
  QueuedTask, AgentQueue, RunLane, user, agent, background, push_lane, push_task, position_of,
  take_user, take_next, pump_queue, settle_queue,
}

-- The tasks that wait, in the order in which `pump` takes them.
abbrev pub order : AgentQueue → List QueuedTask
order q = q.pending_user ++ (q.pending_agent ++ q.pending_background)

-- A choice is the head of the order and leaves the rest of it; there is none if nothing waits.
abbrev pub Takes : AgentQueue → Option (QueuedTask × AgentQueue) → Type 0
Takes q none = order q ≡ []
Takes q (some (t, r)) = (order q ≡ t ∷ order r) × (r.active ≡ q.active) × (r.zombies ≡ q.zombies)

take_user-Takes :
    (us gs bs : List QueuedTask) (q : AgentQueue)
    → q.pending_user ≡ us
    → q.pending_agent ≡ gs
    → q.pending_background ≡ bs
    → Takes q (take_user us q)
unfolding take_user
take_user-Takes (t ∷ us) gs bs q u a b = ground arith
take_user-Takes [] (t ∷ gs) bs q u a b = ground arith
take_user-Takes [] [] (t ∷ bs) q u a b = ground arith
take_user-Takes [] [] [] q u a b = ground arith

-- The choice of the pump is the head of the order.
pub take_next-Takes : (q : AgentQueue) → Takes q (take_next q)
unfolding take_next
take_next-Takes q =
    take_user-Takes q.pending_user q.pending_agent q.pending_background q refl refl refl

-- Where a new task stands in the order, and the position that `enqueue` reports for it.
abbrev pub Placed : QueuedTask → AgentQueue → AgentQueue → ℕ → Type 0
Placed t q q' position =
    (before : List QueuedTask) × (after : List QueuedTask) × (order q ≡ before ++ after)
    × (order q' ≡ before ++ t ∷ after)
    × (position ≡ (if is_some q.active then 1 else 0) + length before)

push_lane-Placed :
    (l : RunLane) (t : QueuedTask) (q : AgentQueue)
    → Placed t q (push_lane l t q) (position_of l (push_lane l t q))
unfolding push_lane position_of
push_lane-Placed user t q = (
  q.pending_user,
  q.pending_agent ++ q.pending_background,
  refl,
  append_assoc q.pending_user (t ∷ []) (q.pending_agent ++ q.pending_background),
  ground (arith, length-append q.pending_user (t ∷ [])),
)
push_lane-Placed agent t q = (
  q.pending_user ++ q.pending_agent,
  q.pending_background,
  simp append_assoc,
  simp append_assoc,
  ground
      (arith, length-append q.pending_agent (t ∷ []), length-append q.pending_user q.pending_agent),
)
push_lane-Placed background t q = (
  q.pending_user ++ (q.pending_agent ++ q.pending_background),
  [],
  simp append-nil,
  simp append_assoc,
  ground (
    arith,
    length-append q.pending_background (t ∷ []),
    length-append q.pending_agent q.pending_background,
    length-append q.pending_user (q.pending_agent ++ q.pending_background),
  ),
)

-- The position that `enqueue` reports counts exactly the tasks that are served before the new one.
pub push_task-position :
    (t : QueuedTask) (q : AgentQueue)
    → Placed t q (push_task t q) (position_of t.lane (push_task t q))
unfolding push_task
push_task-position t q = push_lane-Placed t.lane t q

-- Pump and let the started task finish, `n` times: the tasks that ran.
pub serve : ℕ → AgentQueue → List QueuedTask
serve zero q = []
serve (suc n) q =
    let started = (pump_queue 0 0 q).0 in
    elim started.active [ none ↦ [] | some a ↦ a.item ∷ serve n (settle_queue a.item.id started) ]
