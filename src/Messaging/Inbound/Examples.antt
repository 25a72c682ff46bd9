-- ===== src/Messaging/Inbound/Examples.antt =====
-- Two messages for one agent in packages/messaging/src/agent-messaging.ts.
use open_claw_bot.Common.{◌+◌, ◌≡◌, refl, true, false, List, [], ◌∷◌, map}
use open_claw_bot.Common.Texts.{units}
use open_claw_bot.Messaging.Inbound.{
  InboundMessage, ended, Event, arrives, wakes, turns, no_messages, prioritize, merge_queues,
  start_wake, run_turn, preempt, step_wake, step, run, arrivals,
}
use open_claw_bot.Messaging.Inbound.Conserved.{total, weigh, batch_of, sum, run-conserves}

abbrev mail : InboundMessage
mail = record {
  from_id = units "a";
  from_name = units "ann";
  text = units "hi";
  images = [];
  timestamp_ms = 1;
  priority = false;
}

abbrev urgent : InboundMessage
urgent = record mail { text = units "now"; priority = true }

-- The urgent message arrives after the first turn of a batch and goes before the rest of it.
abbrev history : List Event
history =
    arrives mail
    ∷ arrives mail
    ∷ wakes true
    ∷ turns ended
    ∷ arrives urgent
    ∷ turns ended
    ∷ wakes true
    ∷ turns ended
    ∷ []

preempts : map (λ e. e.message) (run history no_messages).done ≡ mail ∷ urgent ∷ []
unfolding step start_wake prioritize step_wake run_turn preempt merge_queues
preempts = refl

run-conserves_example :
    let s = run history no_messages in
    total (weigh (λ m. 1)) s.pending
      + total (weigh (λ m. 1)) (batch_of s.wake)
      + total (weigh (λ m. 1)) s.done
      + total (weigh (λ m. 1)) s.dropped
    ≡ sum (λ m. 1) (arrivals history)
run-conserves_example = run-conserves (λ m. 1) history
