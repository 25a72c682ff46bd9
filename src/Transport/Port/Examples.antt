-- ===== src/Transport/Port/Examples.antt =====
-- Small sessions of packages/transport/src/port.ts.
use open_claw_bot.Common.{◌+◌, ◌≡◌, refl, Bool, true, false, none, some, List, [], ◌∷◌}
use open_claw_bot.Common.Texts.{units, text_beq, text_eq}
use open_claw_bot.Common.Decimal.{decimal}
use open_claw_bot.Common.Maps.{get, set, delete}
use open_claw_bot.Transport.Frames.{
  ready, shutdown, ClientFrame, client_lifecycle, request, ok_outcome, null_outcome, ServerFrame,
  server_lifecycle, reply, event, client_frame, server_frame, outcome_of, lifecycle_phase, error,
  make_ok_reply, make_event, wire_of_client, wire_of_server,
}
use open_claw_bot.Transport.Port.{
  clean, protocol_breach, new_server, posts, answers, settles, dispatches, client_ready, post,
  settle, breach, greet, serve_frame, handle_message, answer, come_back, handle_port_closed,
  post_event, ServerInput, gets, comes_back, port_closed, emits, serve_input, serve_all,
}
use open_claw_bot.Transport.Port.Client.{
  PortClient, new_client, port_closed, sends, resolves, rejects, throws_at, closes_channel,
  client_settles, calls_handler, settle_unless, settle_client, finish, take_reply, take_frame,
  client_message, request_label, send_request, on_event, farewell, close_client, ClientInput,
  requests, message, subscribes, closes, act, act_all,
}
use open_claw_bot.Transport.Port.Wire.{frames_arrive}
use open_claw_bot.Transport.Port.Session.{Session, before, conforms, Follows}
use open_claw_bot.Transport.Port.Served.{serve_all-conforms}
use open_claw_bot.Transport.Port.Counts.{asked_by, ended_by, lost_by, sum_by, waits_for}
use open_claw_bot.Transport.Port.Awaited.{act_all-balance}
use open_claw_bot.Transport.Port.Late.{late_request-waits}

abbrev from_client : ClientFrame → ServerInput
from_client f = gets (some (wire_of_client f))

abbrev hello : ServerInput
hello = from_client (client_lifecycle ready)

abbrev ping : ServerInput
ping = from_client (request (units "r1") (units "ping") none)

abbrev session : List ServerInput
session =
    hello
    ∷ ping
    ∷ emits (units "e") 7
    ∷ comes_back (error (units "E") (units "m")) 0 (true, 5, error [] [])
    ∷ hello
    ∷ ping
    ∷ port_closed
    ∷ []

abbrev any_frame : ServerFrame → Bool
any_frame f = true

session_runs :
    (serve_all any_frame session new_server).1
    ≡ posts (server_lifecycle ready none none)
      ∷ client_ready
      ∷ dispatches 0 (units "r1") (units "ping") none
      ∷ posts (event (units "e") 7)
      ∷ answers 0 (reply (units "r1") (ok_outcome 5))
      ∷ posts (
          server_lifecycle shutdown
            (some (units "protocol-error"))
            (some (units "duplicate ready")))
      ∷ settles (protocol_breach (units "duplicate ready"))
      ∷ []
unfolding serve_all serve_input handle_message serve_frame greet breach settle post answer come_back
    handle_port_closed post_event make_ok_reply make_event client_frame lifecycle_phase
    wire_of_client text_beq get set delete
session_runs = refl

frames_arrive_example :
    (client_frame (some (wire_of_client (request (units "r1") (units "ping") (some 3))))
      ≡ some (request (units "r1") (units "ping") (some 3)))
    × (server_frame (some (wire_of_server (event (units "e") 7))) ≡ some (event (units "e") 7))
frames_arrive_example =
    frames_arrive (request (units "r1") (units "ping") (some 3)) (event (units "e") 7) refl refl

serve_all-conforms_example :
    (w : Session) × (conforms (serve_all any_frame session new_server).1 (some (before false))
      ≡ some w)
    × Follows (serve_all any_frame session new_server).0 w
serve_all-conforms_example = serve_all-conforms any_frame refl session

abbrev from_server : ServerFrame → ClientInput
from_server f = message (some (wire_of_server f))

-- Three requests: one answered, one whose reply has a null outcome, one that waits for the closing.
abbrev inputs : List ClientInput
inputs =
    subscribes (units "e") 4
    ∷ requests (units "a") none
    ∷ requests (units "b") none
    ∷ requests (units "c") none
    ∷ from_server (reply (units "r1") (ok_outcome 5))
    ∷ from_server (event (units "e") 7)
    ∷ from_server (reply (units "r2") null_outcome)
    ∷ closes
    ∷ []

inputs_run :
    ((act_all inputs new_client).1
      ≡ sends (request (units "r1") (units "a") none)
        ∷ sends (request (units "r2") (units "b") none)
        ∷ sends (request (units "r3") (units "c") none)
        ∷ resolves (units "r1") 5
        ∷ calls_handler 4 7
        ∷ throws_at (units "r2")
        ∷ closes_channel
        ∷ rejects (units "r3") port_closed
        ∷ client_settles (clean (units "client close"))
        ∷ [])
    × (waits_for (units "r3") (act_all inputs new_client).0 ≡ 0)
unfolding act_all act send_request client_message take_frame take_reply finish settle_client
    settle_unless close_client farewell on_event request_label decimal server_frame lifecycle_phase
    outcome_of wire_of_server text_beq get set delete
inputs_run = (refl, refl)

act_all-balance_example :
    sum_by (asked_by (units "r2")) (act_all inputs new_client).1
    ≡ sum_by (ended_by (units "r2")) (act_all inputs new_client).1
      + sum_by (lost_by (units "r2")) (act_all inputs new_client).1
      + waits_for (units "r2") (act_all inputs new_client).0
act_all-balance_example = act_all-balance (units "r2") inputs

abbrev over : PortClient
over = record { pending = []; listeners = []; settled = true; next_request_id = 0; is_ready = true }

late_request-waits_example :
    get
      (act_all
        (closes ∷ requests (units "y") none ∷ [])
        (send_request (units "x") none over).0).0.pending
      (request_label (0 + 1))
    ≡ some (units "x")
late_request-waits_example =
    late_request-waits over (units "x") none (closes ∷ requests (units "y") none ∷ []) refl
      (tt, (tt, tt))
