-- ===== src/Transport/Sse/Delivered.antt =====
-- Every event that a gateway of packages/transport/src/sse.ts publishes reaches its client.
use open_claw_bot.Common.{
  ◌≡◌, false, Option, some, List, [], ◌∷◌, ◌++◌, is_empty, if◌then◌else◌, nat_eq,
}
use open_claw_bot.Common.Texts.{Text, units, text_eq}
use open_claw_bot.Common.Lines.{IsLine}
use open_claw_bot.Transport.Sse.Gateway.{
  GatewaySseEvent, RawEvent, is_subscribed, HostEvent, beats, publishes,
}

-- What is used of JSON, for the events of a set `P`: an event is printed as one line in braces, which
-- is read back, and its channel has a name.
pub record EventJson (stringify : GatewaySseEvent → Text) (parse : Text → Option RawEvent)
    (P : GatewaySseEvent → Type 0) : Type 0 where
  pub body : GatewaySseEvent → Text
  pub braced : (e : GatewaySseEvent) → P e → stringify e ≡ b'{' ∷ (body e ++ (b'}' ∷ []))
  pub one_line : (e : GatewaySseEvent) → P e → IsLine (body e)
  pub read_back :
      (e : GatewaySseEvent)
      → P e
      → parse (stringify e) ≡ some (record { channel = some e.channel; payload = e.payload })
  pub named : (e : GatewaySseEvent) → P e → is_empty e.channel ≡ false

module _ (stringify : GatewaySseEvent → Text) (parse : Text → Option RawEvent)
    (P : GatewaySseEvent → Type 0) (json : EventJson stringify parse P) where
  open json use {body, braced, one_line, read_back, named}

  -- The line of an event.
  abbrev event_line : GatewaySseEvent → Text
  event_line e = units "data: " ++ stringify e

  abbrev braced_line : GatewaySseEvent → Text
  braced_line e = units "data: " ++ (b'{' ∷ (body e ++ (b'}' ∷ [])))

  -- The events of a history that a client of these channels asked for.
  abbrev pub wanted : Option (List Text) → List HostEvent → List GatewaySseEvent
  wanted channels [] = []
  wanted channels (beats ∷ hs) = wanted channels hs
  wanted channels (publishes e ∷ hs) =
      if is_subscribed channels e then e ∷ wanted channels hs else wanted channels hs

  -- Histories that publish only events of the set.
  abbrev pub Publishes : HostEvent → Type 0
  Publishes beats = Unit
  Publishes (publishes e) = P e

  blocks_of : Option (List Text) → List HostEvent → List Text
  blocks_of channels [] = []
  blocks_of channels (beats ∷ hs) = units ":ping" ∷ blocks_of channels hs
  blocks_of channels (publishes e ∷ hs) =
      if is_subscribed channels e
      then event_line e ∷ blocks_of channels hs
      else blocks_of channels hs

  stream_blocks : Option (List Text) → List HostEvent → List Text
  stream_blocks channels hs = units "retry: 1000" ∷ blocks_of channels hs
