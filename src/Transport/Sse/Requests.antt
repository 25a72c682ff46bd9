-- ===== src/Transport/Sse/Requests.antt =====
-- packages/transport/src/sse.ts: handleRequest of the gateway's server. The command surface and JSON
-- are parameters; a handler's value is only passed on.
use open_claw_bot.Common.{
  ℕ, ◌&&◌, ◌||◌, Option, none, some, ◌++◌, drop, contains, is_empty, if◌then◌else◌, ◌==◌, nat_eq,
}
use open_claw_bot.Common.Texts.{Text, units, text_eq, starts_with}

-- The body as `readBody` gives it, or the message of its error.
pub data RequestBody : Type 0 where
  body : Text → RequestBody
  broken_body : (message : Text) → RequestBody

pub record GatewayRequest : Type 0 where
  pub pathname : Text
  pub http_method : Text
  pub read_body : RequestBody

-- What a handler returns, or the message of what it throws.
pub data CommandResult : Type 0 where
  command_value : ℕ → CommandResult
  command_throws : (message : Text) → CommandResult

-- How the server responds: the event stream, its health, a value, or an error.
pub data GatewayResponse : Type 0 where
  event_stream : GatewayResponse
  health : GatewayResponse
  respond_json : ℕ → GatewayResponse
  respond_error : (status : ℕ) (message : Text) → GatewayResponse

abbrev pub gateway_events_path : Text
gateway_events_path = units "/events"

abbrev pub gateway_health_path : Text
gateway_health_path = units "/health"

abbrev pub gateway_api_prefix : Text
gateway_api_prefix = units "/api"

unfoldable pub respond : CommandResult → GatewayResponse
respond (command_value value) = respond_json value
respond (command_throws message) = respond_error 500 message

module _ (api : Text → Option (ℕ → CommandResult)) (parse : Text → Option ℕ) (no_args : ℕ) where
  -- Behind the parser; `no_args` is the value `{}`.
  unfoldable pub call_command : Text → Option ℕ → GatewayResponse
  unfolding respond
  call_command method none = respond_error 400 (units "invalid JSON body")
  call_command method (some args) = elim (api method) [
    | none ↦ respond_error 404 (units "unknown command: " ++ method)
    | some handler ↦ respond (handler args)
  ]

  unfoldable pub read_command : Text → RequestBody → GatewayResponse
  unfolding call_command
  read_command method (broken_body message) = respond_error 500 message
  read_command method (body text) =
      call_command method (if is_empty text then some no_args else parse text)

  unfoldable pub handle_request : GatewayRequest → GatewayResponse
  unfolding read_command starts_with
  handle_request r =
      let method = drop 5 r.pathname in
      if (r.pathname == gateway_events_path) && (r.http_method == units "GET")
      then event_stream
      else (if (r.pathname == gateway_health_path) && (r.http_method == units "GET")
          then health
          else (if starts_with r.pathname gateway_api_prefix && (r.http_method == units "POST")
              then (if is_empty method || contains method b'/'
                  then respond_error 404 (units "unknown command")
                  else read_command method r.read_body)
              else respond_error 404 (units "not found")))
