-- ===== src/Core/Scheduler/Examples.antt =====
-- Runs of packages/core/src/run-scheduler.ts on one agent with a wedged run and waiting tasks.
use open_claw_bot.Common.{ℕ, ◌++◌, ◌≡◌, refl, true, false, none, some, List, [], ◌∷◌, Perm, nat_eq}
use open_claw_bot.Common.Maps.{get, set}
use open_claw_bot.Common.Texts.{Text, units, text_eq, text_beq}
use open_claw_bot.Core.Scheduler.{
  QueuedTask, ActiveTask, AgentQueue, Scheduler, Event, Effect, user, agent, background,
  watchdog_grace, enqueues, pumps, finishes, grace_fires, step, queue_for, run_task, enqueue,
  on_queue, unless_disposed, pump_queue, settle_queue,
}
use open_claw_bot.Core.Scheduler.Conservation.{tasks, arrivals, departures, step-conserves}
use open_claw_bot.Core.Scheduler.Watchdog.{IsWoken, owed, run, escape_strands}

abbrev task : ℕ → QueuedTask
task n = record {
  id = n;
  lane = user;
  source = units "user";
  enqueued_at_ms = 5;
  accepted_at_ms = none;
  ack_token = none;
}

abbrev peer_task : QueuedTask
peer_task = record (task 3) { lane = agent; source = units "agent" }

-- Run 1 is wedged, and the tasks 2 and 3 wait behind it.
abbrev wedged_run : ActiveTask
wedged_run = record { item = task 1; started_at_ms = 7; phase = watchdog_grace }

abbrev wedged : AgentQueue
wedged = record {
  pending_user = task 2 ∷ [];
  pending_agent = peer_task ∷ [];
  pending_background = [];
  active = some wedged_run;
  zombies = [];
}

abbrev bot : Text
bot = units "a1"

abbrev busy : Scheduler
busy = record {
  queues = (bot, wedged) ∷ [];
  watchdog_ms = 120000;
  grace_ms = 30000;
  disposed = false;
}

-- The source's test of lanes: background, agent and user tasks start user first.
abbrev mixed : List Event
mixed =
    enqueues bot (record (task 1) { lane = background })
    ∷ enqueues bot (record (task 2) { lane = agent })
    ∷ enqueues bot (task 3)
    ∷ pumps bot 0
    ∷ finishes bot 3 true
    ∷ pumps bot 1
    ∷ finishes bot 2 true
    ∷ pumps bot 2
    ∷ []

abbrev started : List Event → List ℕ
started es = starts (run (record busy { queues = [] }) es).1
  where
    starts : List Effect → List ℕ
    starts [] = []
    starts (run_task n ∷ out) = n ∷ starts out
    starts (_ ∷ out) = starts out

lanes_in_order : started mixed ≡ 3 ∷ 2 ∷ 1 ∷ []
unfolding run step enqueue on_queue unless_disposed pump_queue settle_queue queue_for get set
    text_beq
lanes_in_order = refl

step-conserves_example : Perm (arrivals bot (grace_fires bot 1) ++ tasks (queue_for busy bot)) (
    departures bot (grace_fires bot 1) (queue_for busy bot)
    ++ tasks (queue_for (step busy (grace_fires bot 1)).0 bot))
step-conserves_example = step-conserves busy (grace_fires bot 1) bot

escape_strands_example :
    ¬ IsWoken
      (queue_for (step busy (grace_fires bot 1)).0 bot)
      (owed bot 0 (grace_fires bot 1) (step busy (grace_fires bot 1)).1)
unfolding get text_beq
escape_strands_example = escape_strands busy bot wedged wedged_run refl refl refl refl (λ e. cc)
