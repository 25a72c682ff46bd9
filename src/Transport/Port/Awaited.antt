-- ===== src/Transport/Port/Awaited.antt =====
-- The promises of a client of packages/transport/src/port.ts: each request ends at most once.
use open_claw_bot.Common.{
  ℕ, ◌+◌, ◌≡◌, refl, subst, ◌∙◌, inl, inr, Bool, true, false, Option, none, some, List, [], ◌∷◌,
  ◌++◌, map, ◌==◌, or_else, is_some, arith, Bool-cases, Option-cases,
}
use open_claw_bot.Common.Texts.{Text, units, text_eq, text_beq_iff}
use open_claw_bot.Common.Maps.{get, set, get-set, get-set_other, set-IsDistinct}
use open_claw_bot.Transport.Frames.{
  ready, shutdown, ReplyOutcome, ok_outcome, error_outcome, unknown_method, null_outcome,
  ServerFrame, server_lifecycle, reply, event, server_frame,
}
use open_claw_bot.Transport.Port.{PortSettlement, clean}
use open_claw_bot.Transport.Port.Client.{
  PortClient, new_client, ClientOutput, closes_channel, client_settles, port_closed_of,
  settle_unless, settle_client, finish, take_reply, take_frame, client_message, request_label,
  send_request, time_out, on_event, off_event, farewell, close_client, ClientInput, requests,
  message, times_out, subscribes, unsubscribes, closes, act, act_all,
}
use open_claw_bot.Transport.Port.Counts.{
  one_if, asked_by, ended_by, lost_by, sum_by, sum_by-append, waits_for, IsSound, Balances,
  label_other, closed_counts, handlers_count, delete-IsSound, removed_count,
}

settle_unless-Balances :
    (k : Text) (settled : Bool) (how : PortSettlement) (c : PortClient)
    → IsSound c
    → Balances k c (settle_unless settled how c)
unfolding settle_unless sum_by get
settle_unless-Balances k true how c sound = (refl, sound)
settle_unless-Balances k false how c (distinct, fresh) =
    let gone = map port_closed_of c.pending in
    let last = client_settles how ∷ [] in
    (
      omega (
        arith,
        closed_counts k c.pending distinct,
        sum_by-append (asked_by k) gone last,
        sum_by-append (ended_by k) gone last,
        sum_by-append (lost_by k) gone last,
      ),
      (tt, λ n h. refl),
    )

settle-Balances :
    (k : Text) (how : PortSettlement) (c : PortClient)
    → IsSound c
    → Balances k c (settle_client how c)
unfolding settle_client
settle-Balances k how c sound = settle_unless-Balances k c.settled how c sound

finish_counts :
    (k id : Text) (outcome : ReplyOutcome)
    → (sum_by (asked_by k) (finish id outcome ∷ []) ≡ 0)
      × (sum_by (ended_by k) (finish id outcome ∷ []) + sum_by (lost_by k) (finish id outcome ∷ [])
          ≡ one_if (id == k))
unfolding finish sum_by
finish_counts k id (ok_outcome value) = (refl, omega arith)
finish_counts k id (unknown_method method) = (refl, omega arith)
finish_counts k id (error_outcome name text) = (refl, omega arith)
finish_counts k id null_outcome = (refl, omega arith)

reply-Balances :
    (k id : Text) (outcome : ReplyOutcome) (c : PortClient)
    → IsSound c
    → Balances k c (take_reply id outcome c)
unfolding take_reply
reply-Balances k id outcome c sound = elim (Option-cases (get c.pending id)) [
  | inl gone ↦ rw (gone, take_reply) (unfold sum_by in (refl, sound))
  | inr (method, found) ↦
      rw (found, take_reply)
        (
          omega (arith, removed_count k id c method found, finish_counts k id outcome),
          delete-IsSound c id sound,
        )
]

time_out-Balances : (k id : Text) (c : PortClient) → IsSound c → Balances k c (time_out id c)
unfolding time_out sum_by
time_out-Balances k id c sound = elim (Option-cases (get c.pending id)) [
  | inl gone ↦ rw (gone, time_out) (refl, sound)
  | inr (method, found) ↦
      rw (found, time_out)
        (omega (arith, removed_count k id c method found), delete-IsSound c id sound)
]

new_count :
    (k id : Text) (c : PortClient) (method : Text)
    → get c.pending id ≡ none
    → one_if (id == k) + 0 + waits_for k c
      ≡ 0 + 0 + one_if (is_some (get (set c.pending id method) k))
new_count k id c method free = elim (Bool-cases (id == k)) [
  | inl same ↦
      let gone : get c.pending k ≡ none =
        subst (λ x. get c.pending x ≡ none) ((text_beq_iff id k).0 same) free in
      rw (get-set c.pending id k method, same, gone) refl
  | inr other ↦ rw (get-set c.pending id k method, other) (omega arith)
]

request-Balances :
    (k method : Text) (args : Option ℕ) (c : PortClient)
    → IsSound c
    → Balances k c (send_request method args c)
unfolding send_request sum_by
request-Balances k method args c (distinct, fresh) =
    let id = request_label (c.next_request_id + 1) in
    (
      new_count k id c method (fresh (c.next_request_id + 1) (omega arith)),
      (
        set-IsDistinct c.pending id method distinct,
        λ n h.
            get-set_other c.pending id (request_label n) method (label_other _ n h)
            ∙ fresh n (omega arith),
      ),
    )

event-Balances :
    (k family : Text) (payload : ℕ) (c : PortClient)
    → IsSound c
    → Balances k c (take_frame (some (event family payload)) c)
unfolding take_frame
event-Balances k family payload c sound =
    (omega (arith, handlers_count k payload (or_else (get c.listeners family) [])), sound)

frame-Balances :
    (k : Text) (f : Option ServerFrame) (c : PortClient) → IsSound c → Balances k c (take_frame f c)
unfolding take_frame sum_by
frame-Balances k none c sound = settle-Balances k _ c sound
frame-Balances k (some (server_lifecycle shutdown reason detail)) c sound =
    settle-Balances k _ c sound
frame-Balances k (some (server_lifecycle ready reason detail)) c sound = (refl, sound)
frame-Balances k (some (event family payload)) c sound = event-Balances k family payload c sound
frame-Balances k (some (reply id outcome)) c sound = reply-Balances k id outcome c sound

off-Balances :
    (k family : Text) (handler : ℕ) (c : PortClient)
    → IsSound c
    → Balances k c (off_event family handler c, [])
unfolding off_event sum_by
off-Balances k family handler c sound = elim (Option-cases (get c.listeners family)) [
  | inl gone ↦ rw (gone, off_event) (refl, sound)
  | inr (known, found) ↦ rw (found, off_event) (refl, sound)
]

farewell_count :
    (k : Text) (b : Bool)
    → (sum_by (asked_by k) (farewell b) ≡ 0)
      × (sum_by (ended_by k) (farewell b) ≡ 0)
      × (sum_by (lost_by k) (farewell b) ≡ 0)
unfolding farewell sum_by
farewell_count k true = (refl, refl, refl)
farewell_count k false = (refl, refl, refl)

farewell-Balances :
    (k : Text) (b : Bool) (c : PortClient) (r : PortClient × List ClientOutput)
    → Balances k c r
    → Balances k c (r.0, farewell b ++ (closes_channel ∷ r.1))
unfolding sum_by
farewell-Balances k b c r (balance, sound) =
    let rest = closes_channel ∷ r.1 in
    (
      omega (
        arith,
        balance,
        farewell_count k b,
        sum_by-append (asked_by k) (farewell b) rest,
        sum_by-append (ended_by k) (farewell b) rest,
        sum_by-append (lost_by k) (farewell b) rest,
      ),
      sound,
    )

close-Balances : (k : Text) (c : PortClient) → IsSound c → Balances k c (close_client c)
unfolding close_client
close-Balances k c sound =
    farewell-Balances k c.is_ready c (settle_client (clean (units "client close")) c)
      (settle-Balances k (clean (units "client close")) c sound)

act-Balances : (k : Text) (i : ClientInput) (c : PortClient) → IsSound c → Balances k c (act i c)
unfolding act client_message on_event sum_by
act-Balances k (requests method args) c sound = request-Balances k method args c sound
act-Balances k (message value) c sound = frame-Balances k (server_frame value) c sound
act-Balances k (times_out id) c sound = time_out-Balances k id c sound
act-Balances k (subscribes family handler) c sound = (refl, sound)
act-Balances k (unsubscribes family handler) c sound = off-Balances k family handler c sound
act-Balances k closes c sound = close-Balances k c sound

act_all-Balances :
    (k : Text) (is : List ClientInput) (c : PortClient) → IsSound c → Balances k c (act_all is c)
unfolding act_all sum_by
act_all-Balances k [] c sound = (refl, sound)
act_all-Balances k (i ∷ is) c sound =
    let one = act-Balances k i c sound in
    let c' = (act i c).0 in
    let later = act_all-Balances k is c' one.1 in
    let first = (act i c).1 in
    let others = (act_all is c').1 in
    (
      omega (
        arith,
        one.0,
        later.0,
        sum_by-append (asked_by k) first others,
        sum_by-append (ended_by k) first others,
        sum_by-append (lost_by k) first others,
      ),
      later.1,
    )

-- Over every history of requests, messages, timers, subscriptions and closings, and for every request
-- id: the requests that were sent under it are as many as the ends of their promises, the waiters
-- that a reply with a null outcome lost, and the promise that still waits, if it does. So no promise
-- ends twice, and one that has not ended waits for its reply unless such a reply came.
pub act_all-balance :
    (k : Text) (is : List ClientInput)
    → sum_by (asked_by k) (act_all is new_client).1
      ≡ sum_by (ended_by k) (act_all is new_client).1
        + sum_by (lost_by k) (act_all is new_client).1
        + waits_for k (act_all is new_client).0
unfolding get
act_all-balance k is = omega (arith, (act_all-Balances k is new_client (tt, λ n h. refl)).0)
