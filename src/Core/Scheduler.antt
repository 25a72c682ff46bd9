-- ===== src/Core/Scheduler.antt =====
-- packages/core/src/run-scheduler.ts: the per-agent exclusive run queue with three lanes and a
-- watchdog. A task's number stands for the identity of its object and of its two promises. What
-- a method does to promises, timers, microtasks and callbacks is the list of effects it returns.
pub mod Order
pub mod Queues
pub mod Conservation
pub mod Watchdog
mod Examples
use open_claw_bot.Common.{
  ℕ, ◌+◌, ◌-◌, ◌++◌, Bool, true, false, not, ◌&&◌, Option, none, some, List, [], ◌∷◌, map, length,
  is_empty, is_some, keep, if◌then◌else◌, ◌==◌, nat_eq,
}
use open_claw_bot.Common.Maps.{Dict, get, set}
use open_claw_bot.Common.Texts.{Text, text_eq}
use open_claw_bot.Common.Ints.{ℤ, sub_ℕ}

pub data RunLane : Type 0 where
  user agent background : RunLane

pub record QueuedTask : Type 0 where
  pub id : ℕ
  pub lane : RunLane
  pub source : Text
  pub enqueued_at_ms : ℕ
  pub accepted_at_ms : Option ℕ
  pub ack_token : Option Text

pub data Phase : Type 0 where
  running watchdog_grace : Phase

pub record ActiveTask : Type 0 where
  pub item : QueuedTask
  pub started_at_ms : ℕ
  pub phase : Phase

-- `zombies` is the set of `settled` promises that the source keeps, each with its owner.
pub record AgentQueue : Type 0 where
  pub pending_user : List QueuedTask
  pub pending_agent : List QueuedTask
  pub pending_background : List QueuedTask
  pub active : Option ActiveTask
  pub zombies : List ActiveTask

pub record Accepted : Type 0 where
  pub agent_id : Text
  pub lane : RunLane
  pub source : Text
  pub position : ℕ
  pub depth_user : ℕ
  pub depth_agent : ℕ
  pub depth_background : ℕ

pub data Effect : Type 0 where
  resolve reject mark_settled run_task : ℕ → Effect
  arm_watchdog arm_grace : ℕ → ℕ → Effect
  report_accepted : Accepted → Effect
  report_escaped : Text → Text → RunLane → Effect
  schedule_pump : Text → Effect

pub record Scheduler : Type 0 where
  pub queues : Dict Text AgentQueue
  pub watchdog_ms : ℕ
  pub grace_ms : ℕ
  pub disposed : Bool

abbrev pub empty_queue : AgentQueue
empty_queue = record {
  pending_user = [];
  pending_agent = [];
  pending_background = [];
  active = none;
  zombies = [];
}

-- `queueFor`, less the write of a queue that it creates: every caller writes the queue back.
unfoldable pub queue_for : Scheduler → Text → AgentQueue
queue_for s agent_id = elim (get s.queues agent_id) [ none ↦ empty_queue | some q ↦ q ]

-- The push of `enqueue` into the lane of the task.
push_lane : RunLane → QueuedTask → AgentQueue → AgentQueue
push_lane user t q = record q { pending_user = q.pending_user ++ t ∷ [] }
push_lane agent t q = record q { pending_agent = q.pending_agent ++ t ∷ [] }
push_lane background t q = record q { pending_background = q.pending_background ++ t ∷ [] }

unfoldable pub push_task : QueuedTask → AgentQueue → AgentQueue
unfolding push_lane
push_task t q = push_lane t.lane t q

-- `pendingAhead`, computed on the queue that already holds the task.
pending_ahead : RunLane → AgentQueue → ℕ
pending_ahead user q = length q.pending_user - 1
pending_ahead agent q = length q.pending_user + length q.pending_agent - 1
pending_ahead background q =
    length q.pending_user + length q.pending_agent + length q.pending_background - 1

unfoldable pub position_of : RunLane → AgentQueue → ℕ
unfolding pending_ahead
position_of l q = (if is_some q.active then 1 else 0) + pending_ahead l q

unfoldable pub enqueue : Text → QueuedTask → Scheduler → Scheduler × List Effect
unfolding queue_for push_task position_of
enqueue agent_id t s =
    let q = push_task t (queue_for s agent_id) in
    (
      record s { queues = set s.queues agent_id q },
      report_accepted (record {
        agent_id = agent_id;
        lane = t.lane;
        source = t.source;
        position = position_of t.lane q;
        depth_user = length q.pending_user;
        depth_agent = length q.pending_agent;
        depth_background = length q.pending_background;
      })
          ∷ schedule_pump agent_id
          ∷ [],
    )

-- The choice of `pump`: the head of the first lane that holds a task.
take_background : List QueuedTask → AgentQueue → Option (QueuedTask × AgentQueue)
take_background [] q = none
take_background (t ∷ rest) q = some (t, record q { pending_background = rest })

take_agent : List QueuedTask → AgentQueue → Option (QueuedTask × AgentQueue)
unfolding take_background
take_agent [] q = take_background q.pending_background q
take_agent (t ∷ rest) q = some (t, record q { pending_agent = rest })

take_user : List QueuedTask → AgentQueue → Option (QueuedTask × AgentQueue)
unfolding take_agent
take_user [] q = take_agent q.pending_agent q
take_user (t ∷ rest) q = some (t, record q { pending_user = rest })

unfoldable pub take_next : AgentQueue → Option (QueuedTask × AgentQueue)
unfolding take_user
take_next q = take_user q.pending_user q

-- `pump` on the queue of one agent, at the monotonic time `now`.
unfoldable pub pump_queue : ℕ → ℕ → AgentQueue → AgentQueue × List Effect
unfolding take_next
pump_queue watchdog_ms now q = elim q.active [
  | some a ↦ (q, [])
  | none ↦ elim (take_next q) [
    | none ↦ (q, [])
    | some (t, rest) ↦ (
      record rest { active = some (record { item = t; started_at_ms = now; phase = running }) },
      arm_watchdog t.id watchdog_ms ∷ run_task t.id ∷ [],
    )
  ]
]

-- Does the queue's active slot hold the task `id`?
abbrev pub is_active : Option ActiveTask → ℕ → Bool
is_active none id = false
is_active (some a) id = a.item.id == id

-- `settle`, after the task `id` has resolved or rejected its caller's promise. The timers that it
-- disposes are those of a task that is gone from the queue, so they do nothing if they fire.
unfoldable pub settle_queue : ℕ → AgentQueue → AgentQueue
settle_queue id q =
    if is_active q.active id
    then record q { active = none }
    else record q { zombies = keep (λ z. not (z.item.id == id)) q.zombies }

-- The watchdog timer of the task `id` fires.
watchdog_phase : Phase → ℕ → ActiveTask → AgentQueue → AgentQueue × List Effect
watchdog_phase running grace_ms a q = (
  record q { active = some (record a { phase = watchdog_grace }) },
  arm_grace a.item.id grace_ms ∷ [],
)
watchdog_phase watchdog_grace grace_ms a q = (q, [])

unfoldable pub watchdog_queue : ℕ → ℕ → AgentQueue → AgentQueue × List Effect
unfolding watchdog_phase
watchdog_queue grace_ms id q = elim q.active [
  | none ↦ (q, [])
  | some a ↦ if a.item.id == id then watchdog_phase a.phase grace_ms a q else (q, [])
]

-- The grace timer of the task `id` fires: the escape.
grace_phase : Phase → Text → ActiveTask → AgentQueue → AgentQueue × List Effect
grace_phase running agent_id a q = (q, [])
grace_phase watchdog_grace agent_id a q = (
  record q { active = none; zombies = q.zombies ++ a ∷ [] },
  resolve a.item.id ∷ report_escaped agent_id a.item.source a.item.lane ∷ [],
)

unfoldable pub grace_queue : Text → ℕ → AgentQueue → AgentQueue × List Effect
unfolding grace_phase
grace_queue agent_id id q = elim q.active [
  | none ↦ (q, [])
  | some a ↦ if a.item.id == id then grace_phase a.phase agent_id a q else (q, [])
]

-- The outcome of a task: whether it fulfilled its promise.
abbrev pub outcome_effect : Bool → ℕ → Effect
outcome_effect true id = resolve id
outcome_effect false id = reject id

-- What happens to the scheduler from outside: calls, microtasks, timers and tasks that finish.
pub data Event : Type 0 where
  enqueues : Text → QueuedTask → Event
  pumps : Text → ℕ → Event
  finishes : Text → ℕ → Bool → Event
  watchdog_fires grace_fires : Text → ℕ → Event
  disposes : Event

-- A method or callback that works on the queue of an agent, if there is one.
unfoldable pub on_queue :
    Text → (AgentQueue → AgentQueue × List Effect) → Scheduler → Scheduler × List Effect
on_queue agent_id f s = elim (get s.queues agent_id) [
  | none ↦ (s, [])
  | some q ↦ let (q', out) = f q in (record s { queues = set s.queues agent_id q' }, out)
]

unfoldable pub unless_disposed : Scheduler → Scheduler × List Effect → Scheduler × List Effect
unless_disposed s r = if s.disposed then (s, []) else r

abbrev deactivate : Text × AgentQueue → Text × AgentQueue
deactivate (agent_id, q) = (agent_id, record q { active = none })

unfoldable pub step : Scheduler → Event → Scheduler × List Effect
step s (enqueues agent_id t) = enqueue agent_id t s
step s (pumps agent_id now) = unless_disposed s (on_queue agent_id (pump_queue s.watchdog_ms now) s)
step s (finishes agent_id id ok) =
    on_queue agent_id
      (λ q.
        (settle_queue id q, outcome_effect ok id ∷ mark_settled id ∷ schedule_pump agent_id ∷ []))
      s
step s (watchdog_fires agent_id id) =
    unless_disposed s (on_queue agent_id (watchdog_queue s.grace_ms id) s)
step s (grace_fires agent_id id) = unless_disposed s (on_queue agent_id (grace_queue agent_id id) s)
step s disposes = (record s { disposed = true; queues = map deactivate s.queues }, [])

-- The promises whose settlement `drain` awaits, named by task and by which of its two promises.
pub data Awaited : Type 0 where
  settled_of promise_of : ℕ → Awaited

abbrev active_list : Option ActiveTask → List ActiveTask
active_list none = []
active_list (some a) = a ∷ []

unfoldable pub drain_snapshot : AgentQueue → List Awaited
drain_snapshot q =
    map (λ a. settled_of a.item.id) (active_list q.active)
    ++ (map (λ z. settled_of z.item.id) q.zombies
        ++ (map (λ t. promise_of t.id) q.pending_user
            ++ (map (λ t. promise_of t.id) q.pending_agent
                ++ map (λ t. promise_of t.id) q.pending_background)))

unfoldable pub get_active_lane : Scheduler → Text → Option RunLane
get_active_lane s agent_id = elim (get s.queues agent_id) [
  | none ↦ none
  | some q ↦ elim q.active [ none ↦ none | some a ↦ some a.item.lane ]
]

pub record ActiveRunInfo : Type 0 where
  pub lane : RunLane
  pub source : Text
  pub runtime_ms : ℤ
  pub phase : Phase
  pub accepted_at_ms : Option ℕ

pub record RunQueueDiagnostics : Type 0 where
  pub agent_id : Text
  pub depth_user : ℕ
  pub depth_agent : ℕ
  pub depth_background : ℕ
  pub depth_total : ℕ
  pub oldest_pending_user_age_ms : Option ℤ
  pub active : Option ActiveRunInfo
  pub zombie_count : ℕ

oldest_age : ℕ → List QueuedTask → Option ℤ
oldest_age now [] = none
oldest_age now (t ∷ rest) = some (sub_ℕ now t.enqueued_at_ms)

unfoldable pub active_info : ℕ → Option ActiveTask → Option ActiveRunInfo
active_info now none = none
active_info now (some a) = some (record {
  lane = a.item.lane;
  source = a.item.source;
  runtime_ms = sub_ℕ now a.started_at_ms;
  phase = a.phase;
  accepted_at_ms = a.item.accepted_at_ms;
})

-- One round of the loop of `getDiagnostics`, at the wall time `now`; idle queues are skipped.
unfoldable pub diagnose : ℕ → Text → AgentQueue → Option RunQueueDiagnostics
unfolding oldest_age active_info
diagnose now agent_id q =
    if is_empty q.pending_user
      && is_empty q.pending_agent
      && is_empty q.pending_background
      && not (is_some q.active)
    then none
    else some (record {
      agent_id = agent_id;
      depth_user = length q.pending_user;
      depth_agent = length q.pending_agent;
      depth_background = length q.pending_background;
      depth_total =
          length q.pending_user
          + length q.pending_agent
          + length q.pending_background
          + (if is_some q.active then 1 else 0);
      oldest_pending_user_age_ms = oldest_age now q.pending_user;
      active = active_info now q.active;
      zombie_count = length q.zombies;
    })

unfoldable pub get_diagnostics : ℕ → Dict Text AgentQueue → List RunQueueDiagnostics
unfolding diagnose
get_diagnostics now [] = []
get_diagnostics now ((agent_id, q) ∷ rest) =
    let others = get_diagnostics now rest in
    elim (diagnose now agent_id q) [ none ↦ others | some d ↦ d ∷ others ]
