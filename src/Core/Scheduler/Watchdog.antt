-- ===== src/Core/Scheduler/Watchdog.antt =====
-- The watchdog, the wake-ups and the shutdown of packages/core/src/run-scheduler.ts.
use mathlib.Core.List.{Mem, mem-append_left, mem-append_right, mem-cons_self, mem-map_of_mem}
use mathlib.Core.Option
use open_claw_bot.Common.{
  ℕ, ◌+◌, ◌-◌, ◌<◌, ◌≤◌, ◌++◌, ◌≡◌, ◌≢◌, refl, Bool, true, false, none, some, List, [], ◌∷◌, any,
  if◌then◌else◌, ◌==◌, arith, nat_beq_iff,
}
use open_claw_bot.Common.Maps.{get, get-set, ==_refl}
use open_claw_bot.Common.Texts.{Text, text_eq}
use open_claw_bot.Common.Ints.{sub_ℕ}
use open_claw_bot.Core.Scheduler.{
  ActiveTask, watchdog_grace, resolve, run_task, report_escaped, schedule_pump, AgentQueue,
  Scheduler, Event, enqueues, pumps, finishes, watchdog_fires, grace_fires, disposes, Effect,
  settled_of, drain_snapshot, grace_queue, queue_for, active_info, enqueue, on_queue,
  unless_disposed, step,
}
use open_claw_bot.Core.Scheduler.Order.{order}

-- Every event in turn, with all that the scheduler did.
unfoldable pub run : Scheduler → List Event → Scheduler × List Effect
run s [] = (s, [])
run s (e ∷ es) = let (s', out) = step s e in let (s'', later) = run s' es in (s'', out ++ later)

abbrev pub is_start : Effect → Bool
is_start (run_task id) = true
is_start _ = false

abbrev wakes : Text → Effect → ℕ
wakes a (schedule_pump b) = if b == a then 1 else 0
wakes a _ = 0

-- The pump microtasks of an agent that a list of effects schedules.
abbrev pub wake_ups : Text → List Effect → ℕ
wake_ups a [] = 0
wake_ups a (x ∷ xs) = wakes a x + wake_ups a xs

-- The microtask that an event uses up.
abbrev pub used : Text → Event → ℕ
used a (pumps b now) = if b == a then 1 else 0
used a _ = 0

-- A queue with `n` pump microtasks outstanding will be looked at: it runs a task, nothing waits,
-- or a pump is due.
abbrev pub IsWoken : AgentQueue → ℕ → Type 0
IsWoken q n = q.active ≡ none → order q ≢ [] → 0 < n

abbrev pub is_escape : Event → Bool
is_escape (grace_fires a id) = true
is_escape disposes = true
is_escape _ = false

-- The pump microtasks outstanding after an event that did `out`.
abbrev pub owed : Text → ℕ → Event → List Effect → ℕ
owed a n e out = n - used a e + wake_ups a out

abbrev escaped : AgentQueue → ActiveTask → AgentQueue
escaped q run = record q { active = none; zombies = q.zombies ++ run ∷ [] }

module _ (s : Scheduler) (a : Text) (q : AgentQueue) (run : ActiveTask) (live : s.disposed ≡ false)
    (there : get s.queues a ≡ some q) (held : q.active ≡ some run)
    (graced : run.phase ≡ watchdog_grace) where
  escape_step :
      (queue_for (step s (grace_fires a run.item.id)).0 a ≡ escaped q run)
      × ((step s (grace_fires a run.item.id)).1
          ≡ resolve run.item.id ∷ report_escaped a run.item.source run.item.lane ∷ [])
  unfolding step on_queue unless_disposed grace_queue queue_for
  escape_step = (
    ground (
      arith,
      get-set s.queues a a (escaped q run),
      ==_refl a,
      nat_beq_iff run.item.id run.item.id,
    ),
    ground (arith, nat_beq_iff run.item.id run.item.id),
  )

-- An escape wakes nobody: if tasks wait behind a run that is escaped and no pump is outstanding,
-- the agent's queue is then idle, tasks wait in it, and still no pump is outstanding.
pub escape_strands :
    (s : Scheduler) (a : Text) (q : AgentQueue) (run : ActiveTask)
    → s.disposed ≡ false
    → get s.queues a ≡ some q
    → q.active ≡ some run
    → run.phase ≡ watchdog_grace
    → order q ≢ []
    → ¬ IsWoken
        (queue_for (step s (grace_fires a run.item.id)).0 a)
        (owed a 0 (grace_fires a run.item.id) (step s (grace_fires a run.item.id)).1)
escape_strands s a q run live there held graced waits woken =
    let (now, out) = escape_step s a q run live there held graced in
    let nobody : 0 < 0 = (rw (now, out) at woken) refl waits in omega arith

-- The escape of a wedged run: the caller is released and told, the slot of the queue is free, and
-- `drain` goes on waiting for the run itself to settle.
pub escape_releases :
    (s : Scheduler) (a : Text) (q : AgentQueue) (run : ActiveTask)
    → s.disposed ≡ false
    → get s.queues a ≡ some q
    → q.active ≡ some run
    → run.phase ≡ watchdog_grace
    → let after = step s (grace_fires a run.item.id) in
      (after.1 ≡ resolve run.item.id ∷ report_escaped a run.item.source run.item.lane ∷ [])
      × ((queue_for after.0 a).active ≡ none)
      × Mem (settled_of run.item.id) (drain_snapshot (queue_for after.0 a))
escape_releases s a q run live there held graced =
    let (now, out) = escape_step s a q run live there held graced in
    (
      out,
      rw now refl,
      rw now (
          unfold drain_snapshot in
          mem-append_left _ (mem-map_of_mem _ (mem-append_right q.zombies mem-cons_self))),
    )

step_disposed :
    (s : Scheduler) (e : Event)
    → s.disposed ≡ true
    → ((step s e).0.disposed ≡ true) × (any is_start (step s e).1 ≡ false)
unfolding step enqueue on_queue unless_disposed
step_disposed s (enqueues b t) h = ground arith
step_disposed s (pumps b now) h = ground arith
step_disposed s (finishes b id ok) h = ground arith
step_disposed s (watchdog_fires b id) h = ground arith
step_disposed s (grace_fires b id) h = ground arith
step_disposed s disposes h = ground arith

any-append :
    (xs ys : List Effect)
    → any is_start xs ≡ false
    → any is_start ys ≡ false
    → any is_start (xs ++ ys) ≡ false
any-append [] ys h k = k
any-append (x ∷ xs) ys h k = ground (arith, any-append xs ys)

-- After `dispose`, no history of calls, timers and finished runs starts a task.
pub disposed_starts_nothing :
    (s : Scheduler) (es : List Event) → s.disposed ≡ true → any is_start (run s es).1 ≡ false
unfolding run
disposed_starts_nothing s [] h = refl
disposed_starts_nothing s (e ∷ es) h =
    let (gone, quiet) = step_disposed s e h in
    any-append (step s e).1 (run (step s e).0 es).1 quiet
      (disposed_starts_nothing (step s e).0 es gone)

-- `getDiagnostics` subtracts a start on the monotonic clock from a time on the wall clock, so what
-- it reports as the run time is right at a wall time `wall` and a monotonic time `mono` past the
-- start only if the two clocks agree.
pub runtime_misread :
    (wall mono : ℕ) (a : ActiveTask)
    → a.started_at_ms ≤ mono
    → wall ≢ mono
    → Option.map (λ i. i.runtime_ms) (active_info wall (some a)) ≢ some (sub_ℕ mono a.started_at_ms)
unfolding active_info
runtime_misread wall mono a past differ same = ground arith
