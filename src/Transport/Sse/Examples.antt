-- ===== src/Transport/Sse/Examples.antt =====
-- Streams of packages/transport/src/sse.ts, cut in the middle of a blank line.
use open_claw_bot.Common.{
  ◌≡◌, refl, false, Option, none, some, List, [], ◌∷◌, ◌++◌, if◌then◌else◌, ◌==◌,
}
use open_claw_bot.Common.Texts.{
  Text, units, text_beq, text_eq, trim, trim_start, is_space, starts_with,
}
use open_claw_bot.Common.Lines.{split_lines, join_lines}
use open_claw_bot.Transport.Sse.{cut_block, emit, drain, push, push_all}
use open_claw_bot.Transport.Sse.Chunks.{unwind, feed, joined, push_all-feed}
use open_claw_bot.Transport.Sse.Gateway.{
  GatewaySseEvent, RawEvent, split_commas, parse_subscribed_channels, is_subscribed, HostEvent,
  beats, publishes, parsed_event, parse_sse_block, events_of,
}
use open_claw_bot.Common.{ℕ, []}
use open_claw_bot.Transport.Sse.Requests.{
  body, GatewayResponse, CommandResult, command_value, event_stream, health, respond_json,
  respond_error, handle_request,
}

abbrev cut : List Text
cut = (units "data: 1" ++ 10 ∷ []) ∷ (10 ∷ units ":ping") ∷ (10 ∷ 10 ∷ units "data: 2") ∷ []

push_all_runs : push_all [] cut ≡ (units "data: 1" ∷ [], units "data: 2")
unfolding push drain cut_block emit trim trim_start is_space starts_with
push_all_runs = refl

push_all-feed_example :
    push_all [] cut ≡ ((feed [] (joined cut)).0, unwind (feed [] (joined cut)).1 [])
push_all-feed_example = push_all-feed cut

-- JSON as far as one event goes.
abbrev ready : GatewaySseEvent
ready = record { channel = units "ready"; payload = 7 }

abbrev print_event : GatewaySseEvent → Text
print_event e = units "{7}"

abbrev read_event : Text → Option RawEvent
read_event t =
    if t == units "{7}" then some (record { channel = some (units "ready"); payload = 7 }) else none

abbrev IsReady : GatewaySseEvent → Type 0
IsReady e = e ≡ ready

abbrev heard : List HostEvent
heard = publishes ready ∷ beats ∷ publishes ready ∷ []

abbrev pieces : List Text
pieces =
    units "retry: 10"
    ∷ (units "00" ++ (10 ∷ []))
    ∷ (10 ∷ (units "data: {7}" ++ (10 ∷ 10 ∷ units ":pi")))
    ∷ (units "ng" ++ (10 ∷ 10 ∷ units "data: {7}"))
    ∷ (10 ∷ 10 ∷ [])
    ∷ []

channels_run :
    (parse_subscribed_channels (some (units " ready,, other "))
      ≡ some (units "ready" ∷ units "other" ∷ []))
    × (parse_subscribed_channels (some (units " ,")) ≡ none)
    × (is_subscribed (some (units "other" ∷ [])) ready ≡ false)
    × (events_of read_event (units "data: {7}" ∷ units "data: 8" ∷ units "retry: 1" ∷ [])
        ≡ ready ∷ [])
unfolding parse_subscribed_channels split_commas is_subscribed text_beq trim trim_start is_space
    events_of parse_sse_block parsed_event split_lines join_lines starts_with
channels_run = (refl, refl, refl, refl)

-- One command, and the responses to requests for it.
abbrev ping_only : Text → Option (ℕ → CommandResult)
ping_only method = if method == units "ping" then some (λ args. command_value args) else none

abbrev no_json : Text → Option ℕ
no_json text = none

abbrev asked : Text → Text → Text → GatewayResponse
unfolding handle_request
asked method path text =
    handle_request ping_only no_json 3
      (record { pathname = path; http_method = method; read_body = body text })

requests_run :
    (asked (units "POST") (units "/api/ping") [] ≡ respond_json 3)
    × (asked (units "POST") (units "/apixping") [] ≡ respond_json 3)
    × (asked (units "POST") (units "/api/ping") (units "?")
        ≡ respond_error 400 (units "invalid JSON body"))
    × (asked (units "POST") (units "/api/a/b") [] ≡ respond_error 404 (units "unknown command"))
    × (asked (units "GET") (units "/events") [] ≡ event_stream)
    × (asked (units "GET") (units "/health") [] ≡ health)
unfolding asked text_beq
requests_run = (refl, refl, refl, refl, refl, refl)
