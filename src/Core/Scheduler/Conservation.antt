-- ===== src/Core/Scheduler/Conservation.antt =====
-- No call, timer or finished run of packages/core/src/run-scheduler.ts loses, copies or invents a
-- task, and the queues of other agents are left alone.
use mathlib.Core.List.{append_assoc, map-append, perm_middle}
use mathlib.Core.List.Perm
use open_claw_bot.Common.{
  ℕ, ◌++◌, ◌≡◌, refl, subst, ◌⊎◌, inl, inr, Bool, not, none, some, List, [], ◌∷◌, map, Perm, keep,
  if◌then◌else◌, ◌==◌, arith, Bool-cases, Option-cases, nat_eq, nat_beq_iff,
}
use open_claw_bot.Common.Maps.{Dict, get}
use open_claw_bot.Common.Texts.{Text, text_eq, text_beq_iff}
use open_claw_bot.Core.Scheduler.{
  QueuedTask, ActiveTask, Phase, running, watchdog_grace, resolve, report_escaped, arm_watchdog,
  run_task, AgentQueue, RunLane, user, agent, background, Scheduler, Event, enqueues, pumps,
  finishes, watchdog_fires, grace_fires, disposes, active_list, is_active, push_lane, push_task,
  take_next, pump_queue, settle_queue, watchdog_queue, grace_queue, queue_for, Effect,
  outcome_effect, mark_settled, schedule_pump, on_queue, unless_disposed, deactivate, enqueue, step,
}
use open_claw_bot.Core.Scheduler.Queues.{
  on_queue_self, on_queue_other, unless_disposed-cases, enqueue_self, enqueue_other,
}
use open_claw_bot.Core.Scheduler.Order.{order, Takes, take_next-Takes, push_task-position}

abbrev items : List ActiveTask → List QueuedTask
items = map (λ a. a.item)

-- Every task that the queue knows: the running one, the zombies, and those that wait.
abbrev pub tasks : AgentQueue → List QueuedTask
tasks q = items (active_list q.active) ++ (items q.zombies ++ order q)

push_lane-rest :
    (l : RunLane) (t : QueuedTask) (q : AgentQueue)
    → ((push_lane l t q).active ≡ q.active) × ((push_lane l t q).zombies ≡ q.zombies)
unfolding push_lane
push_lane-rest user t q = (refl, refl)
push_lane-rest agent t q = (refl, refl)
push_lane-rest background t q = (refl, refl)

module _ {A : Type 0} where
  perm_insert :
      (t : A) (us vs bs cs : List A)
      → Perm (t ∷ (us ++ (vs ++ (bs ++ cs)))) (us ++ (vs ++ (bs ++ t ∷ cs)))
  perm_insert t us vs bs cs = Perm.symm (
      Perm.trans
        (Perm.append_left us
          (Perm.trans (Perm.append_left vs (perm_middle bs cs)) (perm_middle vs (bs ++ cs))))
        (perm_middle us (vs ++ (bs ++ cs))))

push_task-tasks : (t : QueuedTask) (q : AgentQueue) → Perm (t ∷ tasks q) (tasks (push_task t q))
unfolding push_task
push_task-tasks t q =
    let (before, after, old, new, _) = push_task-position t q in
    let rest = push_lane-rest t.lane t q in
    rw (rest.0, rest.1, old, new)
      (perm_insert t (items (active_list q.active)) (items q.zombies) before after)

-- What a pump does to the queue: nothing, or it starts the task that it takes.
pub pump_queue-cases :
    (w now : ℕ) (q : AgentQueue)
    → (pump_queue w now q ≡ (q, []))
      ⊎ ((t : QueuedTask) × (r : AgentQueue) × (q.active ≡ none)
          × (take_next q ≡ some (t, r))
          × (pump_queue w now q ≡ (
            record r { active = some (record { item = t; started_at_ms = now; phase = running }) },
            arm_watchdog t.id w ∷ run_task t.id ∷ [],
          )))
unfolding pump_queue
pump_queue-cases w now q = elim (Option-cases q.active) [
  | inr (a, e) ↦ inl (ground arith)
  | inl e ↦ elim (Option-cases (take_next q)) [
    | inl n ↦ inl (ground arith)
    | inr ((t, r), n) ↦ inr (t, r, e, n, ground arith)
  ]
]

pump_queue-tasks : (w now : ℕ) (q : AgentQueue) → Perm (tasks q) (tasks (pump_queue w now q).0)
pump_queue-tasks w now q = elim (pump_queue-cases w now q) [
  | inl e ↦ rw e Perm.rfl
  | inr (t, r, idle, taken, e) ↦
      let (head, _, zombies) = subst (Takes q) taken (take_next-Takes q) in
      rw (e, idle, head, ← zombies) (perm_middle (items r.zombies) (order r))
]

-- What the grace timer does to the queue: nothing, or it moves the running task to the zombies.
pub grace_queue-cases :
    (agent_id : Text) (id : ℕ) (q : AgentQueue)
    → (grace_queue agent_id id q ≡ (q, []))
      ⊎ ((a : ActiveTask) × (q.active ≡ some a)
          × (a.item.id ≡ id)
          × (a.phase ≡ watchdog_grace)
          × (grace_queue agent_id id q ≡ (
            record q { active = none; zombies = q.zombies ++ a ∷ [] },
            resolve id ∷ report_escaped agent_id a.item.source a.item.lane ∷ [],
          )))
unfolding grace_queue
grace_queue-cases agent_id id q = elim (Option-cases q.active) [
  | inl e ↦ inl (ground arith)
  | inr (a, e) ↦ elim (Bool-cases (a.item.id == id)) [
    | inr miss ↦ inl (ground arith)
    | inl hit ↦ phase_cases a e ((nat_beq_iff _ _).0 hit) a.phase refl
  ]
]
  where
    phase_cases :
        (a : ActiveTask)
        → q.active ≡ some a
        → a.item.id ≡ id
        → (p : Phase) → a.phase ≡ p
        → (grace_queue agent_id id q ≡ (q, []))
          ⊎ ((a : ActiveTask) × (q.active ≡ some a)
              × (a.item.id ≡ id)
              × (a.phase ≡ watchdog_grace)
              × (grace_queue agent_id id q ≡ (
                record q { active = none; zombies = q.zombies ++ a ∷ [] },
                resolve id ∷ report_escaped agent_id a.item.source a.item.lane ∷ [],
              )))
    phase_cases a e h running p = inl (ground arith)
    phase_cases a e h watchdog_grace p = inr (a, e, h, p, ground arith)

grace_queue-tasks :
    (agent_id : Text) (id : ℕ) (q : AgentQueue)
    → Perm (tasks q) (tasks (grace_queue agent_id id q).0)
grace_queue-tasks agent_id id q = elim (grace_queue-cases agent_id id q) [
  | inl e ↦ rw e Perm.rfl
  | inr (a, held, _, _, e) ↦
      rw (e, held, map-append, append_assoc) (Perm.symm (perm_middle (items q.zombies) (order q)))
]

watchdog_queue-tasks : (g id : ℕ) (q : AgentQueue) → tasks (watchdog_queue g id q).0 ≡ tasks q
unfolding watchdog_queue
watchdog_queue-tasks g id q = ground arith

-- The tasks that leave the queue when the task `id` finishes.
abbrev pub finished : ℕ → AgentQueue → List QueuedTask
finished id q =
    if is_active q.active id
    then items (active_list q.active)
    else items (keep (λ z. z.item.id == id) q.zombies)

zombies_split :
    (p : ActiveTask → Bool) (us vs : List QueuedTask) (zs : List ActiveTask)
    → Perm
        (us ++ (items zs ++ vs))
        (items (keep p zs) ++ (us ++ (items (keep (λ z. not (p z)) zs) ++ vs)))
zombies_split p us vs [] = Perm.rfl
zombies_split p us vs (z ∷ zs) =
    let moved =
      Perm.trans (perm_middle us (items zs ++ vs)) (Perm.cons z.item (zombies_split p us vs zs)) in
    elim (Bool-cases (p z)) [
      | inl e ↦ rw e moved
      | inr e ↦ rw e (Perm.trans moved (perm_insert z.item (items (keep p zs)) us [] _))
    ]

settle_queue-tasks :
    (id : ℕ) (q : AgentQueue) → Perm (tasks q) (finished id q ++ tasks (settle_queue id q))
unfolding settle_queue
settle_queue-tasks id q = elim (Bool-cases (is_active q.active id)) [
  | inl e ↦ rw e Perm.rfl
  | inr e ↦ rw e (zombies_split _ _ _ q.zombies)
]

-- The tasks that an event brings to the queue of an agent, and those that it takes away.
abbrev pub arrivals : Text → Event → List QueuedTask
arrivals a (enqueues b t) = if b == a then t ∷ [] else []
arrivals a _ = []

abbrev pub departures : Text → Event → AgentQueue → List QueuedTask
departures a (finishes b id ok) q = if b == a then finished id q else []
departures a disposes q = items (active_list q.active)
departures a _ q = []

-- Work that keeps the tasks of a queue keeps those of every queue.
on_queue-tasks :
    (s : Scheduler) (a b : Text) (f : AgentQueue → AgentQueue × List Effect)
    → ((q : AgentQueue) → Perm (tasks q) (tasks (f q).0))
    → Perm (tasks (queue_for s a)) (tasks (queue_for (unless_disposed s (on_queue b f s)).0 a))
on_queue-tasks s a b f keeps = elim (unless_disposed-cases s (on_queue b f s)) [
  | inl gone ↦ rw gone Perm.rfl
  | inr live ↦ rw live (elim (Bool-cases (b == a)) [
    | inr miss ↦ rw (on_queue_other s a f b miss) Perm.rfl
    | inl hit ↦ rw ((text_beq_iff b a).0 hit) (elim (on_queue_self s a f) [
      | inl (e, _) ↦ rw e Perm.rfl
      | inr (e, _) ↦ rw e (keeps (queue_for s a))
    ])
  ])
]

disposed_queue :
    (m : Dict Text AgentQueue) (a : Text)
    → get (map deactivate m) a
      ≡ elim (get m a) [ none ↦ none | some q ↦ some (record q { active = none }) ]
unfolding get
disposed_queue [] a = refl
disposed_queue ((b, q) ∷ m) a = ground (arith, disposed_queue m a)

dispose-tasks :
    (s : Scheduler) (a : Text)
    → tasks (queue_for s a)
      ≡ departures a disposes (queue_for s a) ++ tasks (queue_for (step s disposes).0 a)
unfolding step queue_for
dispose-tasks s a = ground (arith, disposed_queue s.queues a)

enqueue-tasks :
    (s : Scheduler) (a b : Text) (t : QueuedTask)
    → Perm
        (arrivals a (enqueues b t) ++ tasks (queue_for s a))
        (tasks (queue_for (enqueue b t s).0 a))
enqueue-tasks s a b t = elim (Bool-cases (b == a)) [
  | inl hit ↦ rw (hit, (text_beq_iff b a).0 hit, enqueue_self s a t) (push_task-tasks t _)
  | inr miss ↦ rw (miss, enqueue_other s a b t miss) Perm.rfl
]

abbrev finish : Text → ℕ → Bool → AgentQueue → AgentQueue × List Effect
finish b id ok q =
    (settle_queue id q, outcome_effect ok id ∷ mark_settled id ∷ schedule_pump b ∷ [])

finish-tasks :
    (s : Scheduler) (a b : Text) (id : ℕ) (ok : Bool)
    → Perm (tasks (queue_for s a)) (
        departures a (finishes b id ok) (queue_for s a)
        ++ tasks (queue_for (on_queue b (finish b id ok) s).0 a))
finish-tasks s a b id ok = elim (Bool-cases (b == a)) [
  | inr miss ↦ rw (miss, on_queue_other s a (finish b id ok) b miss) Perm.rfl
  | inl hit ↦
      rw (hit, (text_beq_iff b a).0 hit)
        (elim (on_queue_self s a (finish a id ok)) [
          | inl (e, nothing) ↦ rw (e, nothing) Perm.rfl
          | inr (e, _) ↦ rw e (settle_queue-tasks id (queue_for s a))
        ])
]

-- Conservation: for every event and every agent, the tasks that the agent's queue held together
-- with those that the event brought are those that the event ended together with those that the
-- queue now holds.
pub step-conserves :
    (s : Scheduler) (e : Event) (a : Text)
    → Perm
        (arrivals a e ++ tasks (queue_for s a))
        (departures a e (queue_for s a) ++ tasks (queue_for (step s e).0 a))
step-conserves s (enqueues b t) a = unfold step in enqueue-tasks s a b t
step-conserves s (pumps b now) a =
    unfold step in on_queue-tasks s a b (pump_queue s.watchdog_ms now) (pump_queue-tasks _ now)
step-conserves s (finishes b id ok) a = unfold step in finish-tasks s a b id ok
step-conserves s (watchdog_fires b id) a =
    unfold step in
    on_queue-tasks s a b (watchdog_queue s.grace_ms id)
      (λ q. rw (watchdog_queue-tasks s.grace_ms id q) Perm.rfl)
step-conserves s (grace_fires b id) a =
    unfold step in on_queue-tasks s a b (grace_queue b id) (grace_queue-tasks b id)
step-conserves s disposes a = rw (← dispose-tasks s a) Perm.rfl
