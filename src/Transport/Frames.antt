-- ===== src/Transport/Frames.antt =====
-- packages/transport/src/frames.ts: the frames of a port and the two checks of what comes in. A value
-- that is no object, or null, is `none`; a field that is no text is `none` too.
use open_claw_bot.Common.{ℕ, Bool, false, Option, none, some, is_empty, if◌then◌else◌, ◌==◌}
use open_claw_bot.Common.Texts.{Text, units, text_eq}

-- `outcome` of a raw reply: no object at all, null, or an object with the fields that are read.
pub record RawFields : Type 0 where
  pub kind : Option Text
  pub value : ℕ
  pub method : Option Text
  pub error_name : Option Text
  pub error_message : Option Text

pub data RawOutcome : Type 0 where
  no_object : RawOutcome
  null : RawOutcome
  fields : RawFields → RawOutcome

-- The fields of a raw frame. Values that are only passed on are numbers.
pub record RawFrame : Type 0 where
  pub kind : Option Text
  pub phase : Option Text
  pub reason : Option Text
  pub detail : Option Text
  pub request_id : Option Text
  pub method : Option Text
  pub args : Option ℕ
  pub family : Option Text
  pub payload : ℕ
  pub outcome : RawOutcome

pub data LifecyclePhase : Type 0 where
  ready shutdown : LifecyclePhase

pub data ClientFrame : Type 0 where
  client_lifecycle : LifecyclePhase → ClientFrame
  request : (request_id method : Text) (args : Option ℕ) → ClientFrame

-- `null_outcome` is what the check of a reply lets through.
pub data ReplyOutcome : Type 0 where
  ok_outcome : (value : ℕ) → ReplyOutcome
  error_outcome : (error_name error_message : Option Text) → ReplyOutcome
  unknown_method : (method : Option Text) → ReplyOutcome
  null_outcome : ReplyOutcome

pub data ServerFrame : Type 0 where
  server_lifecycle : LifecyclePhase → (reason detail : Option Text) → ServerFrame
  reply : (request_id : Text) → ReplyOutcome → ServerFrame
  event : (family : Text) (payload : ℕ) → ServerFrame

-- `a === "…"` for a field.
abbrev pub says : Option Text → Text → Bool
says none t = false
says (some s) t = s == t

unfoldable pub lifecycle_phase : Option Text → Option LifecyclePhase
lifecycle_phase p =
    if says p (units "ready")
    then some ready
    else if says p (units "shutdown")
    then some shutdown
    else none

as_lifecycle : Option LifecyclePhase → Option ClientFrame
as_lifecycle none = none
as_lifecycle (some p) = some (client_lifecycle p)

as_request : Option Text → Option Text → Option ℕ → Option ClientFrame
as_request (some id) (some method) args =
    if is_empty id then none else some (request id method args)
as_request _ _ args = none

-- `isClientFrame`, with the frame that the value is then taken for.
unfoldable pub client_frame : Option RawFrame → Option ClientFrame
unfolding lifecycle_phase as_lifecycle as_request
client_frame none = none
client_frame (some raw) =
    if says raw.kind (units "lifecycle")
    then as_lifecycle (lifecycle_phase raw.phase)
    else if says raw.kind (units "request")
    then as_request raw.request_id raw.method raw.args
    else none

-- An outcome of any other kind is read as an error.
unfoldable pub outcome_of : RawFields → ReplyOutcome
outcome_of o =
    if says o.kind (units "ok")
    then ok_outcome o.value
    else if says o.kind (units "unknown-method")
    then unknown_method o.method
    else error_outcome o.error_name o.error_message

as_reply : Option Text → RawOutcome → Option ServerFrame
unfolding outcome_of
as_reply none o = none
as_reply (some id) no_object = none
as_reply (some id) null = some (reply id null_outcome)
as_reply (some id) (fields o) = some (reply id (outcome_of o))

as_event : Option Text → ℕ → Option ServerFrame
as_event none payload = none
as_event (some family) payload = if is_empty family then none else some (event family payload)

as_server_lifecycle : RawFrame → Option LifecyclePhase → Option ServerFrame
as_server_lifecycle raw none = none
as_server_lifecycle raw (some p) = some (server_lifecycle p raw.reason raw.detail)

-- `isServerFrame`.
unfoldable pub server_frame : Option RawFrame → Option ServerFrame
unfolding lifecycle_phase as_server_lifecycle as_event as_reply
server_frame none = none
server_frame (some raw) =
    if says raw.kind (units "lifecycle")
    then as_server_lifecycle raw (lifecycle_phase raw.phase)
    else if says raw.kind (units "event")
    then as_event raw.family raw.payload
    else if says raw.kind (units "reply")
    then as_reply raw.request_id raw.outcome
    else none

-- What a dispatch that throws throws: an `Error`, or another value with its `String`.
pub data Thrown : Type 0 where
  error : (name message : Text) → Thrown
  other_value : (text_of : Text) → Thrown

unfoldable pub make_ok_reply : Text → ℕ → ServerFrame
make_ok_reply id value = reply id (ok_outcome value)

unfoldable pub make_error_reply : Text → Thrown → ServerFrame
make_error_reply id (error name message) = reply id (error_outcome (some name) (some message))
make_error_reply id (other_value t) = reply id (error_outcome (some (units "Error")) (some t))

unfoldable pub make_event : Text → ℕ → ServerFrame
make_event family payload = event family payload

unfoldable pub make_unknown_method_reply : Text → Text → ServerFrame
make_unknown_method_reply id method = reply id (unknown_method (some method))

blank : RawFrame
blank = record {
  kind = none;
  phase = none;
  reason = none;
  detail = none;
  request_id = none;
  method = none;
  args = none;
  family = none;
  payload = 0;
  outcome = no_object;
}

raw_outcome : ReplyOutcome → RawOutcome
raw_outcome (ok_outcome value) = fields (record {
  kind = some (units "ok");
  value = value;
  method = none;
  error_name = none;
  error_message = none;
})
raw_outcome (error_outcome name message) = fields (record {
  kind = some (units "error");
  value = 0;
  method = none;
  error_name = name;
  error_message = message;
})
raw_outcome (unknown_method method) = fields (record {
  kind = some (units "unknown-method");
  value = 0;
  method = method;
  error_name = none;
  error_message = none;
})
raw_outcome null_outcome = null

-- A frame as the value that is posted.
phase_text : LifecyclePhase → Text
phase_text ready = units "ready"
phase_text shutdown = units "shutdown"

unfoldable pub wire_of_client : ClientFrame → RawFrame
unfolding blank phase_text
wire_of_client (client_lifecycle p) = record blank {
  kind = some (units "lifecycle");
  phase = some (phase_text p);
}
wire_of_client (request id method args) = record blank {
  kind = some (units "request");
  request_id = some id;
  method = some method;
  args = args;
}

unfoldable pub wire_of_server : ServerFrame → RawFrame
unfolding blank phase_text raw_outcome
wire_of_server (server_lifecycle p reason detail) = record blank {
  kind = some (units "lifecycle");
  phase = some (phase_text p);
  reason = reason;
  detail = detail;
}
wire_of_server (reply id outcome) = record blank {
  kind = some (units "reply");
  request_id = some id;
  outcome = raw_outcome outcome;
}
wire_of_server (event family payload) = record blank {
  kind = some (units "event");
  family = some family;
  payload = payload;
}
