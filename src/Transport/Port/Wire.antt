-- ===== src/Transport/Port/Wire.antt =====
-- What both ends of packages/transport/src/port.ts post, read by the checks of
-- packages/transport/src/frames.ts on the other end.
use open_claw_bot.Common.{◌≡◌, refl, false, some, is_empty}
use open_claw_bot.Common.Texts.{text_beq}
use open_claw_bot.Transport.Frames.{
  ready, shutdown, ClientFrame, client_lifecycle, request, ok_outcome, error_outcome,
  unknown_method, null_outcome, ServerFrame, server_lifecycle, reply, event, client_frame,
  server_frame, outcome_of, lifecycle_phase, wire_of_client, wire_of_server,
}

-- The one thing that the checks ask of a text: the id of a request and the family of an event are
-- not empty.
abbrev pub IsNamedRequest : ClientFrame → Type 0
IsNamedRequest (client_lifecycle p) = Unit
IsNamedRequest (request id method args) = is_empty id ≡ false

abbrev pub IsNamedEvent : ServerFrame → Type 0
IsNamedEvent (server_lifecycle p reason detail) = Unit
IsNamedEvent (reply id outcome) = Unit
IsNamedEvent (event family payload) = is_empty family ≡ false

client_arrives :
    (c : ClientFrame) → IsNamedRequest c → client_frame (some (wire_of_client c)) ≡ some c
unfolding client_frame lifecycle_phase wire_of_client text_beq
client_arrives (client_lifecycle ready) h = refl
client_arrives (client_lifecycle shutdown) h = refl
client_arrives (request id method args) h = rw h

server_arrives :
    (s : ServerFrame) → IsNamedEvent s → server_frame (some (wire_of_server s)) ≡ some s
unfolding server_frame lifecycle_phase outcome_of wire_of_server text_beq
server_arrives (server_lifecycle ready reason detail) h = refl
server_arrives (server_lifecycle shutdown reason detail) h = refl
server_arrives (reply id (ok_outcome value)) h = refl
server_arrives (reply id (error_outcome name text)) h = refl
server_arrives (reply id (unknown_method method)) h = refl
server_arrives (reply id null_outcome) h = refl
server_arrives (event family payload) h = rw h

-- A frame of either side that names its request or its event passes the other side's check and is
-- read as the frame that it was.
pub frames_arrive :
    (c : ClientFrame) (s : ServerFrame)
    → IsNamedRequest c
    → IsNamedEvent s
    → (client_frame (some (wire_of_client c)) ≡ some c)
      × (server_frame (some (wire_of_server s)) ≡ some s)
frames_arrive c s hc hs = (client_arrives c hc, server_arrives s hs)
