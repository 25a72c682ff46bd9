-- ===== src/Core/Scheduler/Queues.antt =====
-- What the calls, microtasks and timers of packages/core/src/run-scheduler.ts do to the queue of
-- one agent, seen from that agent and from the others.
use open_claw_bot.Common.{
  ◌≡◌, ◌⊎◌, inl, inr, true, false, List, [], ◌==◌, arith, Bool-cases, Option-cases, nat_eq,
}
use open_claw_bot.Common.Maps.{get, get-set, ==_refl}
use open_claw_bot.Common.Texts.{Text, text_eq, text_beq_iff}
use open_claw_bot.Core.Scheduler.{
  QueuedTask, AgentQueue, Scheduler, push_task, queue_for, Effect, on_queue, unless_disposed,
  enqueue, empty_queue,
}

module _ (s : Scheduler) (a : Text) (f : AgentQueue → AgentQueue × List Effect) where
  -- Work on the queue of one agent, seen from that agent and from the others.
  pub on_queue_self :
      ((on_queue a f s ≡ (s, [])) × (queue_for s a ≡ empty_queue))
      ⊎ ((queue_for (on_queue a f s).0 a ≡ (f (queue_for s a)).0)
          × ((on_queue a f s).1 ≡ (f (queue_for s a)).1))
  unfolding on_queue queue_for
  on_queue_self = elim (Option-cases (get s.queues a)) [
    | inl e ↦ inl (ground arith, ground arith)
    | inr (q, e) ↦ inr (ground (arith, get-set s.queues a a (f q).0, ==_refl a), ground arith)
  ]

  pub on_queue_other :
      (b : Text) → (b == a) ≡ false → queue_for (on_queue b f s).0 a ≡ queue_for s a
  unfolding on_queue queue_for
  on_queue_other b miss = elim (Option-cases (get s.queues b)) [
    | inl e ↦ ground arith
    | inr (q, e) ↦ ground (arith, get-set s.queues b a (f q).0)
  ]

pub unless_disposed-cases :
    (s : Scheduler) (r : Scheduler × List Effect)
    → (unless_disposed s r ≡ (s, [])) ⊎ (unless_disposed s r ≡ r)
unfolding unless_disposed
unless_disposed-cases s r = ground arith

module _ (s : Scheduler) (b : Text) (f : AgentQueue → AgentQueue × List Effect) where
  pub on_queue_effects : ((on_queue b f s).1 ≡ []) ⊎ ((on_queue b f s).1 ≡ (f (queue_for s b)).1)
  unfolding on_queue queue_for
  on_queue_effects = ground arith

pub enqueue_self :
    (s : Scheduler) (a : Text) (t : QueuedTask)
    → queue_for (enqueue a t s).0 a ≡ push_task t (queue_for s a)
unfolding enqueue
enqueue_self s a t = ground (arith, get-set s.queues a a (push_task t (queue_for s a)), ==_refl a)

pub enqueue_other :
    (s : Scheduler) (a b : Text) (t : QueuedTask)
    → (b == a) ≡ false
    → queue_for (enqueue b t s).0 a ≡ queue_for s a
unfolding enqueue
enqueue_other s a b t miss = ground (arith, get-set s.queues b a (push_task t (queue_for s b)))

-- A property of a queue and of what was done to reach it, through work on one queue.
pub on_queue_rule {ℓ} :
    (P : AgentQueue → List Effect → Type ℓ) (s : Scheduler) (a b : Text)
    (f : AgentQueue → AgentQueue × List Effect)
    → ((b == a) ≡ true → queue_for s a ≡ empty_queue → P (queue_for s a) [])
    → ((b == a) ≡ true → P (f (queue_for s a)).0 (f (queue_for s a)).1)
    → ((b == a) ≡ false
        → (out : List Effect) → (out ≡ []) ⊎ (out ≡ (f (queue_for s b)).1)
        → P (queue_for s a) out)
    → P (queue_for (on_queue b f s).0 a) (on_queue b f s).1
on_queue_rule P s a b f missing found others = elim (Bool-cases (b == a)) [
  | inr miss ↦ rw (on_queue_other s a f b miss) (others miss _ (on_queue_effects s b f))
  | inl hit ↦
      let same : b ≡ a = (text_beq_iff b a).0 hit in
      rw same (elim (on_queue_self s a f) [
        | inl (e, nothing) ↦ rw e (missing hit nothing)
        | inr (e, out) ↦ rw (e, out) (found hit)
      ])
]
