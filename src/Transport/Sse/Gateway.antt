-- ===== src/Transport/Sse/Gateway.antt =====
-- packages/transport/src/sse.ts: the event stream that handleEvents writes, and the events that
-- parseSseBlock reads from the decoder's blocks. JSON and the query of the URL are parameters.
use open_claw_bot.Common.{
  ℕ, Bool, true, not, Option, none, some, List, [], ◌∷◌, ◌++◌, map, drop, keep, contains, is_empty,
  if◌then◌else◌, ◌==◌, nat_eq,
}
use open_claw_bot.Common.Texts.{Text, units, text_eq, trim, starts_with}
use open_claw_bot.Common.Lines.{split_lines, join_lines}

-- An event of the gateway; its payload is only passed on.
pub record GatewaySseEvent : Type 0 where
  pub channel : Text
  pub payload : ℕ

-- What the parsed JSON of a block shows: `channel` if it is a text.
pub record RawEvent : Type 0 where
  pub channel : Option Text
  pub payload : ℕ

onto_head : ℕ → List Text → List Text
onto_head c [] = (c ∷ []) ∷ []
onto_head c (l ∷ ls) = (c ∷ l) ∷ ls

-- `parseSubscribedChannels` on the value of the query, if there is one.
unfoldable pub split_commas : Text → List Text
unfolding onto_head
split_commas [] = [] ∷ []
split_commas (c ∷ s) =
    let rest = split_commas s in if c == b',' then [] ∷ rest else onto_head c rest

unfoldable pub parse_subscribed_channels : Option Text → Option (List Text)
unfolding split_commas
parse_subscribed_channels none = none
parse_subscribed_channels (some raw) =
    let channels = keep (λ c. not (is_empty c)) (map trim (split_commas raw)) in
    if is_empty channels then none else some channels

unfoldable pub is_subscribed : Option (List Text) → GatewaySseEvent → Bool
is_subscribed none e = true
is_subscribed (some channels) e = contains channels e.channel

-- What happens to a stream of the server: its heartbeat, and events of the host.
pub data HostEvent : Type 0 where
  beats : HostEvent
  publishes : GatewaySseEvent → HostEvent

abbrev blank_line : Text
blank_line = 10 ∷ 10 ∷ []

module _ (stringify : GatewaySseEvent → Text) where
  unfoldable pub written : Option (List Text) → HostEvent → Text
  written channels beats = units ":ping" ++ blank_line
  written channels (publishes e) =
      if is_subscribed channels e then units "data: " ++ (stringify e ++ blank_line) else []

  unfoldable pub written_all : Option (List Text) → List HostEvent → Text
  written_all channels [] = []
  written_all channels (h ∷ hs) = written channels h ++ written_all channels hs

  -- The whole stream of a connection.
  unfoldable pub handle_events : Option (List Text) → List HostEvent → Text
  unfolding written_all
  handle_events channels hs = units "retry: 1000" ++ (blank_line ++ written_all channels hs)

module _ (parse : Text → Option RawEvent) where
  abbrev data_of : Text → Text
  data_of line = trim (drop 5 line)

  unfoldable pub parsed_event : Option RawEvent → Option GatewaySseEvent
  parsed_event none = none
  parsed_event (some raw) = elim raw.channel [
    | none ↦ none
    | some channel ↦
        if is_empty channel
        then none
        else some (record { channel = channel; payload = raw.payload })
  ]

  unfoldable pub parse_sse_block : Text → Option GatewaySseEvent
  unfolding parsed_event
  parse_sse_block block =
      let lines = keep (λ l. starts_with l (units "data:")) (split_lines block) in
      if is_empty lines then none else parsed_event (parse (join_lines (map data_of lines)))

  -- The calls of `onEvent` for the blocks of a stream.
  unfoldable pub events_of : List Text → List GatewaySseEvent
  unfolding parse_sse_block
  events_of [] = []
  events_of (block ∷ blocks) =
      let rest = events_of blocks in
      elim (parse_sse_block block) [ none ↦ rest | some e ↦ e ∷ rest ]
