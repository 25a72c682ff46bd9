-- ===== src/Messaging/Relay/Examples.antt =====
-- Remote turns of packages/messaging/src/cross-user-relay.ts at concrete times.
use open_claw_bot.Common.{◌≡◌, refl, List, [], ◌∷◌, arith}
use open_claw_bot.Common.Maps.{get}
use open_claw_bot.Common.Texts.{units, text_eq}
use open_claw_bot.Messaging.Relay.{
  CrossUserRelay, TurnRequest, TurnResult, Event, begins, completes, fails, diagnoses, new_relay,
  dispatched, over_budget, begin_turn,
}
use open_claw_bot.Messaging.Relay.Budget.{WithinBudget, new_relay-WithinBudget}

abbrev ask : TurnRequest
ask = record {
  nonce = units "n1";
  room_id = units "room";
  from_agent_id = units "a1";
  prompt = units "hello";
}

abbrev reply : TurnResult
reply = record { nonce = units "n1"; texts = units "a" ∷ units "b" ∷ units "c" ∷ [] }

abbrev history : List Event
history = begins 0 ask ∷ completes ask reply ∷ begins 5 ask ∷ fails 7 ∷ diagnoses 700000 ∷ []

one_turn_relay : CrossUserRelay
unfolding new_relay
one_turn_relay = record new_relay { budget_max_per_window = 1 }

-- A second turn in the window is refused, and one after the window is sent.
budget_runs :
    let s = (begin_turn 10 ask one_turn_relay).1 in
    ((begin_turn 20 ask s).0 ≡ over_budget) × ((begin_turn 600010 ask s).0 ≡ dispatched)
unfolding one_turn_relay begin_turn get
budget_runs = (refl, refl)

new_relay-WithinBudget_example : WithinBudget new_relay [] history
new_relay-WithinBudget_example = new_relay-WithinBudget history (omega arith)
