-- ===== src/Transport/Port.antt =====
-- packages/transport/src/port.ts: both ends of a port session. Posting to the endpoint may throw,
-- which `can_post` tells for each frame; only posted frames are outputs. An asynchronous dispatch is
-- two steps, its call and its outcome, which a ticket connects.
pub mod Client
pub mod Wire
pub mod Session
pub mod Served
pub mod Counts
pub mod Awaited
pub mod Late
mod Examples
use open_claw_bot.Common.{
  ℕ, ◌+◌, Bool, true, false, not, ◌&&◌, ◌||◌, Option, none, some, List, [], ◌∷◌, ◌++◌, map, keep,
  contains, if◌then◌else◌, ◌==◌, nat_eq,
}
use open_claw_bot.Common.Texts.{Text, units, text_eq}
use open_claw_bot.Common.Decimal.{decimal}
use open_claw_bot.Common.Maps.{Dict, get, set, delete}
use open_claw_bot.Transport.Frames.{
  RawFrame, LifecyclePhase, ready, shutdown, ClientFrame, client_lifecycle, request, ReplyOutcome,
  ok_outcome, error_outcome, unknown_method, null_outcome, ServerFrame, server_lifecycle, reply,
  event, client_frame, server_frame, Thrown, make_ok_reply, make_error_reply, make_event,
}

pub data PortSettlement : Type 0 where
  clean protocol_breach : (detail : Text) → PortSettlement

-- `calls` holds the dispatches that have not come back, by ticket.
pub record PortServer : Type 0 where
  pub settled : Bool
  pub is_ready : Bool
  pub calls : Dict ℕ Text
  pub next_ticket : ℕ

abbrev pub new_server : PortServer
new_server = record { settled = false; is_ready = false; calls = []; next_ticket = 0 }

pub data ServerOutput : Type 0 where
  posts : ServerFrame → ServerOutput
  -- The reply to the dispatch with this ticket.
  answers : (ticket : ℕ) → ServerFrame → ServerOutput
  settles : PortSettlement → ServerOutput
  dispatches : (ticket : ℕ) (request_id method : Text) (args : Option ℕ) → ServerOutput
  client_ready : ServerOutput

-- What reaches the server: frames, outcomes of dispatches, the end of the port, and calls of
-- `postEvent`.
pub data ServerInput : Type 0 where
  gets : Option RawFrame → ServerInput
  comes_back : (refusal : Thrown) (ticket : ℕ) (outcome : Bool × ℕ × Thrown) → ServerInput
  port_closed : ServerInput
  emits : (family : Text) (payload : ℕ) → ServerInput

module _ (can_post : ServerFrame → Bool) where
  unfoldable pub post : ServerFrame → List ServerOutput
  post f = if can_post f then posts f ∷ [] else []

  unfoldable pub settle : PortSettlement → PortServer → PortServer × List ServerOutput
  settle how s = if s.settled then (s, []) else (record s { settled = true }, settles how ∷ [])

  unfoldable pub breach : Text → PortServer → PortServer × List ServerOutput
  unfolding post settle
  breach detail s =
      let notice = server_lifecycle shutdown (some (units "protocol-error")) (some detail) in
      let r = settle (protocol_breach detail) s in (r.0, post notice ++ r.1)

  -- A client that says hello. If the answer cannot be posted, the error leaves the handler.
  unfoldable pub greet : PortServer → PortServer × List ServerOutput
  greet s =
      let hello = server_lifecycle ready none none in
      (record s { is_ready = true }, if can_post hello then posts hello ∷ client_ready ∷ [] else [])

  unfoldable pub serve_frame : Option ClientFrame → PortServer → PortServer × List ServerOutput
  unfolding breach settle greet
  serve_frame none s = breach (units "malformed frame") s
  serve_frame (some (client_lifecycle shutdown)) s = settle (clean (units "client shutdown")) s
  serve_frame (some (client_lifecycle ready)) s =
      if s.is_ready then breach (units "duplicate ready") s else greet s
  serve_frame (some (request id method args)) s =
      if s.is_ready
      then (
        record s { calls = set s.calls s.next_ticket id; next_ticket = s.next_ticket + 1 },
        dispatches s.next_ticket id method args ∷ [],
      )
      else breach (units "request frame before hello") s

  unfoldable pub handle_message : Option RawFrame → PortServer → PortServer × List ServerOutput
  unfolding serve_frame
  handle_message value s = if s.settled then (s, []) else serve_frame (client_frame value) s

  -- A reply that cannot be posted is replaced by the error of posting it, `refusal`.
  unfoldable pub answer : (refusal : Thrown) → ℕ → Text → (Bool × ℕ × Thrown) → List ServerOutput
  answer refusal ticket id (ok, value, thrown) =
      let good = make_ok_reply id value in
      let sorry = if ok then make_error_reply id refusal else make_error_reply id thrown in
      if ok && can_post good
      then answers ticket good ∷ []
      else if can_post sorry
      then answers ticket sorry ∷ []
      else []

  -- The dispatch with this ticket comes back: a value, or an error.
  unfoldable pub come_back :
      (refusal : Thrown) → ℕ → (Bool × ℕ × Thrown) → PortServer → PortServer × List ServerOutput
  unfolding answer
  come_back refusal ticket outcome s = elim (get s.calls ticket) [
    | none ↦ (s, [])
    | some id ↦ (
      record s { calls = delete s.calls ticket },
      if s.settled then [] else answer refusal ticket id outcome,
    )
  ]

  unfoldable pub handle_port_closed : PortServer → PortServer × List ServerOutput
  unfolding settle
  handle_port_closed s = settle (clean (units "port closed")) s

  unfoldable pub post_event : Text → ℕ → PortServer → PortServer × List ServerOutput
  unfolding post
  post_event family payload s =
      (s, if s.settled || not s.is_ready then [] else post (make_event family payload))

  unfoldable pub serve_input : ServerInput → PortServer → PortServer × List ServerOutput
  serve_input (gets value) s = handle_message value s
  serve_input (comes_back refusal ticket outcome) s = come_back refusal ticket outcome s
  serve_input port_closed s = handle_port_closed s
  serve_input (emits family payload) s = post_event family payload s

  unfoldable pub serve_all : List ServerInput → PortServer → PortServer × List ServerOutput
  serve_all [] s = (s, [])
  serve_all (i ∷ is) s =
      let r = serve_input i s in let later = serve_all is r.0 in (later.0, r.1 ++ later.1)
