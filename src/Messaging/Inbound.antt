-- ===== src/Messaging/Inbound.antt =====
-- packages/messaging/src/agent-messaging.ts: the messages that wait for one agent, and the wakes that
-- drain them. A wake is split at each turn of the runner, so that messages arrive in between.
pub mod Conserved
pub mod Redriven
mod Examples
use open_claw_bot.Common.{
  ℕ, ◌+◌, ◌++◌, Bool, true, false, not, ◌&&◌, List, [], ◌∷◌, map, keep, any, is_empty,
  if◌then◌else◌,
}
use open_claw_bot.Common.Texts.{Text}

pub record InboundMessage : Type 0 where
  pub from_id : Text
  pub from_name : Text
  pub text : Text
  pub images : List Text
  pub timestamp_ms : ℕ
  pub priority : Bool

pub record Envelope : Type 0 where
  pub message : InboundMessage
  pub is_displayed : Bool
  pub is_redriven : Bool

abbrev pub is_priority : Envelope → Bool
is_priority e = e.message.priority

abbrev pub received : InboundMessage → Envelope
received m = record { message = m; is_displayed = false; is_redriven = false }

abbrev pub displayed : Envelope → Envelope
displayed e = record e { is_displayed = true }

abbrev pub redriven : Envelope → Envelope
redriven e = record e { is_displayed = true; is_redriven = true }

abbrev pub is_ordinary : Envelope → Bool
is_ordinary e = not (is_priority e)

unfoldable pub prioritize : List Envelope → List Envelope
prioritize messages = keep is_priority messages ++ keep is_ordinary messages

unfoldable pub merge_queues : List Envelope → List Envelope → List Envelope
merge_queues queued deferred =
    keep is_priority queued
    ++ keep is_priority deferred
    ++ keep is_ordinary deferred
    ++ keep is_ordinary queued

-- Where the wake stands: none is running, or the messages that are left of its batch, of which some
-- may have had their turn.
pub data Wake : Type 0 where
  idle : Wake
  running : Bool → List Envelope → Wake

-- `transcript` holds the messages shown to the recipient, `ran` those given to the runner, `done`
-- those whose turn was not aborted, and `dropped` those that no wake will see again.
pub record Inbound : Type 0 where
  pub pending : List Envelope
  pub wake : Wake
  pub transcript : List InboundMessage
  pub ran : List Envelope
  pub done : List Envelope
  pub dropped : List Envelope

abbrev pub no_messages : Inbound
no_messages = record {
  pending = [];
  wake = idle;
  transcript = [];
  ran = [];
  done = [];
  dropped = [];
}

-- What comes of a turn: it ends (also where it was aborted for an upgrade), it is aborted while the
-- agent is still there or gone, or the runner throws.
pub data Turn : Type 0 where
  ended aborted aborted_and_gone threw : Turn

pub data Event : Type 0 where
  arrives : InboundMessage → Event
  wakes : Bool → Event
  turns : Turn → Event

-- The end of `sendToAgent`.
abbrev pub receive : InboundMessage → Inbound → Inbound
receive m s =
    if m.priority
    then record s { pending = received m ∷ s.pending }
    else record s { pending = s.pending ++ received m ∷ [] }

-- The loop of `reviveForAgentInbound` takes all that is pending. An agent without a session or a
-- runner, or that is a group or a remote room, has no wake; else fresh messages are shown first.
unfoldable pub start_wake : Bool → Inbound → Inbound
unfolding prioritize
start_wake is_reachable s =
    let batch = prioritize s.pending in
    let fresh = map (λ e. e.message) (keep (λ e. not e.is_displayed) batch) in
    if is_empty s.pending
    then s
    else if not is_reachable
    then record s { pending = []; dropped = s.dropped ++ batch }
    else record s { pending = []; wake = running false batch; transcript = s.transcript ++ fresh }

-- The rest of a batch, idle if there is none.
abbrev pub go_on : List Envelope → Wake
go_on [] = idle
go_on (e ∷ es) = running true (e ∷ es)

-- An aborted turn: what has not been driven again before is queued again.
unfoldable pub redrive : List Envelope → Inbound → Inbound
unfolding merge_queues
redrive batch s =
    let again = map redriven (keep (λ e. not e.is_redriven) batch) in
    record s {
      pending = if is_empty again then s.pending else merge_queues s.pending again;
      wake = idle;
      dropped = s.dropped ++ keep (λ e. e.is_redriven) batch;
    }

-- A turn for the first message of what is left, and what comes of it.
unfoldable pub run_turn : Turn → Envelope → List Envelope → Inbound → Inbound
unfolding redrive
run_turn ended e es s = record s { wake = go_on es; ran = s.ran ++ e ∷ []; done = s.done ++ e ∷ [] }
run_turn aborted e es s = redrive (e ∷ es) (record s { ran = s.ran ++ e ∷ [] })
run_turn aborted_and_gone e es s = record s {
  wake = idle;
  ran = s.ran ++ e ∷ [];
  dropped = s.dropped ++ e ∷ es;
}
run_turn threw e es s = record s {
  wake = idle;
  ran = s.ran ++ e ∷ [];
  dropped = s.dropped ++ e ∷ es;
}

-- A newer priority message goes before the rest of a batch that has begun.
unfoldable pub preempt : List Envelope → Inbound → Inbound
unfolding merge_queues
preempt batch s = record s { pending = merge_queues s.pending (map displayed batch); wake = idle }

unfoldable pub step_wake : Turn → Wake → Inbound → Inbound
unfolding run_turn preempt
step_wake t idle s = s
step_wake t (running begun []) s = record s { wake = idle }
step_wake t (running begun (e ∷ es)) s =
    if begun && any is_priority s.pending then preempt (e ∷ es) s else run_turn t e es s

-- A wake starts only where none is running.
abbrev pub start_if_idle : Bool → Wake → Inbound → Inbound
start_if_idle is_reachable idle s = start_wake is_reachable s
start_if_idle is_reachable (running begun batch) s = s

unfoldable pub step : Event → Inbound → Inbound
unfolding start_wake step_wake
step (arrives m) s = receive m s
step (wakes is_reachable) s = start_if_idle is_reachable s.wake s
step (turns t) s = step_wake t s.wake s

abbrev pub run : List Event → Inbound → Inbound
run [] s = s
run (e ∷ es) s = run es (step e s)

abbrev pub arrivals : List Event → List InboundMessage
arrivals [] = []
arrivals (arrives m ∷ es) = m ∷ arrivals es
arrivals (wakes is_reachable ∷ es) = arrivals es
arrivals (turns t ∷ es) = arrivals es
