-- ===== src/Transport/Port/Client.antt =====
-- packages/transport/src/port.ts (createPortClient): the requests of a client and their promises.
-- Posting is assumed not to throw; handlers of events are numbers, and one that throws is skipped.
use open_claw_bot.Common.{
  ℕ, ◌+◌, Bool, true, false, not, Option, none, some, List, [], ◌∷◌, ◌++◌, map, keep, contains,
  if◌then◌else◌, ◌==◌, nat_eq, or_else,
}
use open_claw_bot.Common.Texts.{Text, units, text_eq}
use open_claw_bot.Common.Decimal.{decimal}
use open_claw_bot.Common.Maps.{Dict, get, set, delete}
use open_claw_bot.Transport.Frames.{
  RawFrame, ready, shutdown, ClientFrame, client_lifecycle, request, ReplyOutcome, ok_outcome,
  error_outcome, unknown_method, null_outcome, ServerFrame, server_lifecycle, reply, event,
  server_frame, says,
}
use open_claw_bot.Transport.Port.{PortSettlement, clean, protocol_breach}

-- `pending` holds the method of each request whose promise waits.
pub record PortClient : Type 0 where
  pub pending : Dict Text Text
  pub listeners : Dict Text (List ℕ)
  pub settled : Bool
  pub next_request_id : ℕ
  pub is_ready : Bool

abbrev pub new_client : PortClient
new_client = record {
  pending = [];
  listeners = [];
  settled = false;
  next_request_id = 0;
  is_ready = false;
}

-- Why a promise is rejected.
pub data Failure : Type 0 where
  port_closed : Failure
  timed_out : (method : Text) → Failure
  no_such_method : (method : Option Text) → Failure
  failed_with : (name message : Option Text) → Failure

pub data ClientOutput : Type 0 where
  sends : ClientFrame → ClientOutput
  resolves : (request_id : Text) (value : ℕ) → ClientOutput
  rejects : (request_id : Text) → Failure → ClientOutput
  -- The reading of a null outcome throws behind the removal of the waiter.
  throws_at : (request_id : Text) → ClientOutput
  calls_handler : (handler payload : ℕ) → ClientOutput
  closes_channel : ClientOutput
  client_settles : PortSettlement → ClientOutput

abbrev pub port_closed_of : Text × Text → ClientOutput
port_closed_of (id, method) = rejects id port_closed

-- `settle` behind its guard: the waiting promises are rejected in the order of their requests.
unfoldable pub settle_unless : Bool → PortSettlement → PortClient → PortClient × List ClientOutput
settle_unless true how c = (c, [])
settle_unless false how c = (
  record c { settled = true; pending = [] },
  map port_closed_of c.pending ++ (client_settles how ∷ []),
)

unfoldable pub settle_client : PortSettlement → PortClient → PortClient × List ClientOutput
unfolding settle_unless
settle_client how c = settle_unless c.settled how c

-- The end of a promise whose waiter is gone from the table.
unfoldable pub finish : Text → ReplyOutcome → ClientOutput
finish id (ok_outcome value) = resolves id value
finish id (unknown_method method) = rejects id (no_such_method method)
finish id (error_outcome name message) = rejects id (failed_with name message)
finish id null_outcome = throws_at id

unfoldable pub take_reply : Text → ReplyOutcome → PortClient → PortClient × List ClientOutput
unfolding finish
take_reply id outcome c = elim (get c.pending id) [
  | none ↦ (c, [])
  | some method ↦ (record c { pending = delete c.pending id }, finish id outcome ∷ [])
]

-- How a shutdown of the server settles the session.
unfoldable pub shutdown_settlement : Option Text → Option Text → PortSettlement
shutdown_settlement reason detail =
    if says reason (units "protocol-error")
    then protocol_breach (or_else detail (units "server protocol error"))
    else clean (units "server shutdown")

unfoldable pub take_frame : Option ServerFrame → PortClient → PortClient × List ClientOutput
unfolding settle_client take_reply shutdown_settlement
take_frame none c = settle_client (protocol_breach (units "malformed frame from server")) c
take_frame (some (server_lifecycle shutdown reason detail)) c =
    settle_client (shutdown_settlement reason detail) c
take_frame (some (server_lifecycle ready reason detail)) c = (record c { is_ready = true }, [])
take_frame (some (event family payload)) c =
    (c, map (λ h. calls_handler h payload) (or_else (get c.listeners family) []))
take_frame (some (reply id outcome)) c = take_reply id outcome c

unfoldable pub client_message : Option RawFrame → PortClient → PortClient × List ClientOutput
unfolding take_frame
client_message value c = take_frame (server_frame value) c

-- `r${n}`.
unfoldable pub request_label : ℕ → Text
request_label n = 114 ∷ decimal n

unfoldable pub send_request : Text → Option ℕ → PortClient → PortClient × List ClientOutput
unfolding request_label
send_request method args c =
    let n = c.next_request_id + 1 in
    (
      record c { next_request_id = n; pending = set c.pending (request_label n) method },
      sends (request (request_label n) method args) ∷ [],
    )

-- The timer of a request fires.
unfoldable pub time_out : Text → PortClient → PortClient × List ClientOutput
time_out id c = elim (get c.pending id) [
  | none ↦ (c, [])
  | some method ↦ (record c { pending = delete c.pending id }, rejects id (timed_out method) ∷ [])
]

unfoldable pub on_event : Text → ℕ → PortClient → PortClient
on_event family handler c =
    let known = or_else (get c.listeners family) [] in
    let more = if contains known handler then known else known ++ (handler ∷ []) in
    record c { listeners = set c.listeners family more }

unfoldable pub off_event : Text → ℕ → PortClient → PortClient
off_event family handler c = elim (get c.listeners family) [
  | none ↦ c
  | some known ↦ record c {
    listeners = set c.listeners family (keep (λ h. not (h == handler)) known);
  }
]

-- The goodbye of a client that knows that its server listens.
unfoldable pub farewell : Bool → List ClientOutput
farewell true = sends (client_lifecycle shutdown) ∷ []
farewell false = []

unfoldable pub close_client : PortClient → PortClient × List ClientOutput
unfolding settle_client
close_client c =
    let r = settle_client (clean (units "client close")) c in
    (r.0, farewell c.is_ready ++ (closes_channel ∷ r.1))

pub data ClientInput : Type 0 where
  requests : (method : Text) (args : Option ℕ) → ClientInput
  message : Option RawFrame → ClientInput
  times_out : (request_id : Text) → ClientInput
  subscribes unsubscribes : (family : Text) (handler : ℕ) → ClientInput
  closes : ClientInput

unfoldable pub act : ClientInput → PortClient → PortClient × List ClientOutput
act (requests method args) c = send_request method args c
act (message value) c = client_message value c
act (times_out id) c = time_out id c
act (subscribes family handler) c = (on_event family handler c, [])
act (unsubscribes family handler) c = (off_event family handler c, [])
act closes c = close_client c

unfoldable pub act_all : List ClientInput → PortClient → PortClient × List ClientOutput
act_all [] c = (c, [])
act_all (i ∷ is) c = let r = act i c in let later = act_all is r.0 in (later.0, r.1 ++ later.1)
