-- ===== src/Transport/Port/Late.antt =====
-- A request of packages/transport/src/port.ts behind the end of its session.
use open_claw_bot.Common.{
  ℕ, ◌+◌, ◌≤◌, ◌≡◌, sym, subst, ◌∙◌, inl, inr, true, false, Option, none, some, List, [], ◌∷◌, ◌==◌,
  arith, Option-cases, All,
}
use open_claw_bot.Common.Texts.{Text, units, text_eq}
use open_claw_bot.Common.Maps.{get, get-set_self, get-set_other, get-delete_other, ne_sym}
use open_claw_bot.Transport.Frames.{
  ready, shutdown, ReplyOutcome, ServerFrame, server_lifecycle, reply, event, server_frame,
}
use open_claw_bot.Transport.Port.{PortSettlement, clean}
use open_claw_bot.Transport.Port.Client.{
  PortClient, settle_unless, settle_client, take_reply, take_frame, client_message, request_label,
  send_request, time_out, on_event, off_event, close_client, ClientInput, requests, message,
  times_out, subscribes, unsubscribes, closes, act, act_all,
}
use open_claw_bot.Transport.Port.Counts.{label_other}

-- Neither a reply to the request `id` nor its timer.
abbrev pub IsOtherFrame : Text → Option ServerFrame → Type 0
IsOtherFrame id none = Unit
IsOtherFrame id (some (server_lifecycle p reason detail)) = Unit
IsOtherFrame id (some (event family payload)) = Unit
IsOtherFrame id (some (reply j outcome)) = (j == id) ≡ false

abbrev pub IsOther : Text → ClientInput → Type 0
IsOther id (requests method args) = Unit
IsOther id (message value) = IsOtherFrame id (server_frame value)
IsOther id (times_out j) = (j == id) ≡ false
IsOther id (subscribes family handler) = Unit
IsOther id (unsubscribes family handler) = Unit
IsOther id closes = Unit

-- The session is over and the request `m` waits.
abbrev Waits : ℕ → Text → PortClient → Type 0
Waits m method c =
    (c.settled ≡ true) × (m ≤ c.next_request_id) × (get c.pending (request_label m) ≡ some method)

settle-Waits :
    (m : ℕ) (method : Text) (how : PortSettlement) (c : PortClient)
    → Waits m method c
    → Waits m method (settle_client how c).0
unfolding settle_client settle_unless
settle-Waits m method how c (over, low, waits) =
    subst (λ b. Waits m method (settle_unless b how c).0) (sym over) (over, low, waits)

reply-Waits :
    (m : ℕ) (method id : Text) (outcome : ReplyOutcome) (c : PortClient)
    → (id == request_label m) ≡ false
    → Waits m method c
    → Waits m method (take_reply id outcome c).0
unfolding take_reply
reply-Waits m method id outcome c other (over, low, waits) =
    elim (Option-cases (get c.pending id)) [
      | inl gone ↦ rw (gone, take_reply) (over, low, waits)
      | inr (x, found) ↦
          rw (found, take_reply) (over, low, get-delete_other c.pending id _ other ∙ waits)
    ]

time_out-Waits :
    (m : ℕ) (method id : Text) (c : PortClient)
    → (id == request_label m) ≡ false
    → Waits m method c
    → Waits m method (time_out id c).0
unfolding time_out
time_out-Waits m method id c other (over, low, waits) = elim (Option-cases (get c.pending id)) [
  | inl gone ↦ rw (gone, time_out) (over, low, waits)
  | inr (x, found) ↦ rw (found, time_out) (over, low, get-delete_other c.pending id _ other ∙ waits)
]

off-Waits :
    (m : ℕ) (method family : Text) (handler : ℕ) (c : PortClient)
    → Waits m method c
    → Waits m method (off_event family handler c)
unfolding off_event
off-Waits m method family handler c w = elim (Option-cases (get c.listeners family)) [
  | inl gone ↦ rw (gone, off_event) w
  | inr (x, found) ↦ rw (found, off_event) w
]

frame-Waits :
    (m : ℕ) (method : Text) (f : Option ServerFrame) (c : PortClient)
    → IsOtherFrame (request_label m) f
    → Waits m method c
    → Waits m method (take_frame f c).0
unfolding take_frame
frame-Waits m method none c other w = settle-Waits m method _ c w
frame-Waits m method (some (server_lifecycle ready reason detail)) c other w = w
frame-Waits m method (some (server_lifecycle shutdown reason detail)) c other w =
    settle-Waits m method _ c w
frame-Waits m method (some (event family payload)) c other w = w
frame-Waits m method (some (reply id outcome)) c other w = reply-Waits m method id outcome c other w

act-Waits :
    (m : ℕ) (method : Text) (i : ClientInput) (c : PortClient)
    → IsOther (request_label m) i
    → Waits m method c
    → Waits m method (act i c).0
unfolding act send_request client_message on_event close_client
act-Waits m method (requests another args) c other (over, low, waits) = (
  over,
  omega arith,
  get-set_other c.pending _ _ another (
        ne_sym (request_label m) (request_label (c.next_request_id + 1))
          (label_other m (c.next_request_id + 1) (omega arith)))
      ∙ waits,
)
act-Waits m method (message value) c other w = frame-Waits m method (server_frame value) c other w
act-Waits m method (times_out id) c other w = time_out-Waits m method id c other w
act-Waits m method (subscribes family handler) c other w = w
act-Waits m method (unsubscribes family handler) c other w = off-Waits m method family handler c w
act-Waits m method closes c other w = settle-Waits m method (clean (units "client close")) c w

act_all-Waits :
    (m : ℕ) (method : Text) (is : List ClientInput) (c : PortClient)
    → All (IsOther (request_label m)) is
    → Waits m method c
    → Waits m method (act_all is c).0
unfolding act_all
act_all-Waits m method [] c others w = w
act_all-Waits m method (i ∷ is) c (other, others) w =
    act_all-Waits m method is (act i c).0 others (act-Waits m method i c other w)

-- Once a session is over, nothing rejects a new request: it waits through every history, closings
-- included, in which neither a reply to it comes nor a timer that it was given.
pub late_request-waits :
    (c : PortClient) (method : Text) (args : Option ℕ) (is : List ClientInput)
    → c.settled ≡ true
    → All (IsOther (request_label (c.next_request_id + 1))) is
    → get
        (act_all is (send_request method args c).0).0.pending
        (request_label (c.next_request_id + 1))
      ≡ some method
unfolding send_request
late_request-waits c method args is over others =
    (act_all-Waits (c.next_request_id + 1) method is (send_request method args c).0 others
      (over, omega arith, get-set_self c.pending _ method)).2
