-- ===== src/Transport/Port/Served.antt =====
-- The order of what the server side of packages/transport/src/port.ts posts.
use open_claw_bot.Common.{
  ℕ, ◌+◌, ◌≡◌, refl, sym, ap, subst, ◌∙◌, inl, inr, Bool, true, false, Option, none, some, List, [],
  ◌∷◌, if◌then◌else◌, nat_eq, arith, Bool-cases, Option-cases,
}
use open_claw_bot.Common.Texts.{Text, units, text_eq}
use open_claw_bot.Common.Maps.{Dict, get, set, delete}
use open_claw_bot.Transport.Frames.{
  ready, shutdown, ClientFrame, client_lifecycle, request, ServerFrame, server_lifecycle, event,
  client_frame, Thrown, make_ok_reply, make_error_reply, make_event,
}
use open_claw_bot.Transport.Port.{
  PortServer, new_server, answers, post, settle, breach, greet, serve_frame, handle_message, answer,
  come_back, handle_port_closed, post_event, ServerInput, gets, comes_back, port_closed, emits,
  serve_input, serve_all,
}
use open_claw_bot.Transport.Port.Session.{
  Session, answers_to, may_dispatch, accept_one, conforms, conforms-append, server_with, Within,
  IsBelow, Follows, Goes, Within-delete, Within-delete_left, Within-set, IsBelow-set,
  IsBelow-delete, error_reply-answers, ok_reply-answers, answer-accepted, dispatch-accepted, before,
  running, over,
}

module _ (can_post : ServerFrame → Bool) where
  breach-Goes_before :
      (detail : Text) (n : ℕ)
      → Goes (before false) (breach can_post detail (server_with false false [] n))
  unfolding breach post settle accept_one
  breach-Goes_before detail n =
      elim (Bool-cases
        (can_post (server_lifecycle shutdown (some (units "protocol-error")) (some detail)))) [
          | inl sent ↦ (over, rw sent refl, (false, [], n, refl))
          | inr lost ↦ (over, rw lost refl, (false, [], n, refl))
        ]

  breach-Goes_running :
      (detail : Text) (calls seen : Dict ℕ Text) (n : ℕ)
      → Goes (running false seen) (breach can_post detail (server_with false true calls n))
  unfolding breach post settle accept_one
  breach-Goes_running detail calls seen n =
      elim (Bool-cases
        (can_post (server_lifecycle shutdown (some (units "protocol-error")) (some detail)))) [
          | inl sent ↦ (over, rw sent refl, (true, calls, n, refl))
          | inr lost ↦ (over, rw lost refl, (true, calls, n, refl))
        ]

  over-Goes :
      (i : ServerInput) (r : Bool) (calls : Dict ℕ Text) (n : ℕ)
      → Goes over (serve_input can_post i (server_with true r calls n))
  unfolding serve_input handle_message handle_port_closed settle post_event come_back
  over-Goes (gets value) r calls n = (over, refl, (r, calls, n, refl))
  over-Goes (comes_back refusal ticket outcome) r calls n = elim (Option-cases (get calls ticket)) [
    | inl none_left ↦ rw (none_left, come_back) (over, refl, (r, calls, n, refl))
    | inr (id, found) ↦ rw (found, come_back) (over, refl, (r, delete calls ticket, n, refl))
  ]
  over-Goes port_closed r calls n = (over, refl, (r, calls, n, refl))
  over-Goes (emits family payload) r calls n = (over, refl, (r, calls, n, refl))

  module _ (posted : can_post (server_lifecycle ready none none) ≡ true) where
    frame-Goes_before :
        (f : Option ClientFrame) (n : ℕ)
        → Goes (before false) (serve_frame can_post f (server_with false false [] n))
    unfolding serve_frame settle greet accept_one get
    frame-Goes_before none n = breach-Goes_before (units "malformed frame") n
    frame-Goes_before (some (client_lifecycle shutdown)) n = (over, refl, (false, [], n, refl))
    frame-Goes_before (some (client_lifecycle ready)) n =
        rw posted (running false [], refl, ([], n, refl, (λ ticket id h. h), (λ ticket h. refl)))
    frame-Goes_before (some (request id method args)) n =
        breach-Goes_before (units "request frame before hello") n

    before-Goes :
        (i : ServerInput) (n : ℕ)
        → Goes (before false) (serve_input can_post i (server_with false false [] n))
    unfolding serve_input handle_message come_back handle_port_closed settle post_event accept_one
        get
    before-Goes (gets value) n = frame-Goes_before (client_frame value) n
    before-Goes (comes_back refusal ticket outcome) n = (before false, refl, (n, refl))
    before-Goes port_closed n = (over, refl, (false, [], n, refl))
    before-Goes (emits family payload) n = (before false, refl, (n, refl))

    frame-Goes_running :
        (f : Option ClientFrame) (calls seen : Dict ℕ Text) (n : ℕ)
        → Within calls seen
        → IsBelow n seen
        → Goes (running false seen) (serve_frame can_post f (server_with false true calls n))
    unfolding serve_frame settle accept_one may_dispatch
    frame-Goes_running none calls seen n sub below = breach-Goes_running _ calls seen n
    frame-Goes_running (some (client_lifecycle shutdown)) calls seen n sub below =
        (over, refl, (true, calls, n, refl))
    frame-Goes_running (some (client_lifecycle ready)) calls seen n sub below =
        breach-Goes_running _ calls seen n
    frame-Goes_running (some (request id method args)) calls seen n sub below = (
      running false (set seen n id),
      ap (conforms []) (dispatch-accepted n id method args seen (below n (omega arith))),
      (set calls n id, n + 1, refl, Within-set calls seen n id sub, IsBelow-set n seen id below),
    )

    reply-Goes :
        (ticket : ℕ) (id : Text) (f : ServerFrame) (calls seen : Dict ℕ Text) (n : ℕ)
        → Within calls seen
        → IsBelow n seen
        → get calls ticket ≡ some id
        → answers_to id f ≡ true
        → Goes
            (running false seen)
            (server_with false true (delete calls ticket) n, answers ticket f ∷ [])
    reply-Goes ticket id f calls seen n sub below found fits = (
      running false (delete seen ticket),
      ap (conforms []) (answer-accepted ticket id f seen (sub ticket id found) fits),
      (
        delete calls ticket,
        n,
        refl,
        Within-delete calls seen ticket sub,
        IsBelow-delete n ticket seen below,
      ),
    )

    silent-Goes :
        (ticket : ℕ) (calls seen : Dict ℕ Text) (n : ℕ)
        → Within calls seen
        → IsBelow n seen
        → Goes (running false seen) (server_with false true (delete calls ticket) n, [])
    silent-Goes ticket calls seen n sub below = (
      running false seen,
      refl,
      (delete calls ticket, n, refl, Within-delete_left calls seen ticket sub, below),
    )

    -- A reply that is sent if it can be posted.
    sent_or-Goes :
        (ticket : ℕ) (id : Text) (f : ServerFrame) (calls seen : Dict ℕ Text) (n : ℕ)
        → Within calls seen
        → IsBelow n seen
        → get calls ticket ≡ some id
        → answers_to id f ≡ true
        → Goes (running false seen) (
          server_with false true (delete calls ticket) n,
          if can_post f then answers ticket f ∷ [] else [],
        )
    sent_or-Goes ticket id f calls seen n sub below found fits = elim (Bool-cases (can_post f)) [
      | inl sent ↦ rw sent (reply-Goes ticket id f calls seen n sub below found fits)
      | inr lost ↦ rw lost (silent-Goes ticket calls seen n sub below)
    ]

    answer-Goes :
        (refusal : Thrown) (ticket : ℕ) (id : Text) (outcome : Bool × ℕ × Thrown)
        (calls seen : Dict ℕ Text) (n : ℕ)
        → Within calls seen
        → IsBelow n seen
        → get calls ticket ≡ some id
        → Goes (running false seen) (
          server_with false true (delete calls ticket) n,
          answer can_post refusal ticket id outcome,
        )
    unfolding answer
    answer-Goes refusal ticket id (false, value, thrown) calls seen n sub below found =
        sent_or-Goes ticket id (make_error_reply id thrown) calls seen n sub below found
          (error_reply-answers id thrown)
    answer-Goes refusal ticket id (true, value, thrown) calls seen n sub below found =
        elim (Bool-cases (can_post (make_ok_reply id value))) [
          | inl sent ↦ rw sent (
              reply-Goes ticket id (make_ok_reply id value) calls seen n sub below found
                (ok_reply-answers id value))
          | inr lost ↦ rw lost (
              sent_or-Goes ticket id (make_error_reply id refusal) calls seen n sub below found
                (error_reply-answers id refusal))
        ]

    back-Goes :
        (refusal : Thrown) (ticket : ℕ) (outcome : Bool × ℕ × Thrown) (calls seen : Dict ℕ Text)
        (n : ℕ)
        → Within calls seen
        → IsBelow n seen
        → Goes
            (running false seen)
            (come_back can_post refusal ticket outcome (server_with false true calls n))
    unfolding come_back
    back-Goes refusal ticket outcome calls seen n sub below =
        elim (Option-cases (get calls ticket)) [
          | inl gone ↦ rw (gone, come_back) (running false seen, refl, (calls, n, refl, sub, below))
          | inr (id, found) ↦
              rw (found, come_back)
                (answer-Goes refusal ticket id outcome calls seen n sub below found)
        ]

    running-Goes :
        (i : ServerInput) (calls seen : Dict ℕ Text) (n : ℕ)
        → Within calls seen
        → IsBelow n seen
        → Goes (running false seen) (serve_input can_post i (server_with false true calls n))
    unfolding serve_input handle_message handle_port_closed settle post_event post make_event
        accept_one
    running-Goes (gets value) calls seen n sub below =
        frame-Goes_running (client_frame value) calls seen n sub below
    running-Goes (comes_back refusal ticket outcome) calls seen n sub below =
        back-Goes refusal ticket outcome calls seen n sub below
    running-Goes port_closed calls seen n sub below = (over, refl, (true, calls, n, refl))
    running-Goes (emits family payload) calls seen n sub below =
        elim (Bool-cases (can_post (event family payload))) [
          | inl sent ↦ rw sent (running false seen, refl, (calls, n, refl, sub, below))
          | inr lost ↦ rw lost (running false seen, refl, (calls, n, refl, sub, below))
        ]

    serve_input-Goes :
        (i : ServerInput) (s : PortServer) (w : Session)
        → Follows s w
        → Goes w (serve_input can_post i s)
    serve_input-Goes i s over (r, calls, n, e) =
        subst (λ x. Goes over (serve_input can_post i x)) (sym e) (over-Goes i r calls n)
    serve_input-Goes i s (before false) (n, e) =
        subst (λ x. Goes (before false) (serve_input can_post i x)) (sym e) (before-Goes i n)
    serve_input-Goes i s (before true) h = absurd h
    serve_input-Goes i s (running true seen) h = absurd h
    serve_input-Goes i s (running false seen) (calls, n, e, sub, below) =
        subst (λ x. Goes (running false seen) (serve_input can_post i x)) (sym e)
          (running-Goes i calls seen n sub below)

    serve_all-Goes :
        (is : List ServerInput) (s : PortServer) (w : Session)
        → Follows s w
        → Goes w (serve_all can_post is s)
    unfolding serve_all
    serve_all-Goes [] s w f = (w, refl, f)
    serve_all-Goes (i ∷ is) s w f =
        let (w', e, f') = serve_input-Goes i s w f in
        let (w'', e', f'') = serve_all-Goes is (serve_input can_post i s).0 w' f' in
        (
          w'',
          conforms-append (serve_input can_post i s).1
                (serve_all can_post is (serve_input can_post i s).0).1 (some w)
              ∙ rw e e',
          f'',
        )

    -- If the hello can be posted, every history of frames, outcomes of dispatches, events and the end
    -- of the port keeps the protocol. Nothing is posted before the client has said hello but the
    -- notice of a breach; each dispatch has a ticket of its own and is answered at most once, with a
    -- value or an error under the id of its request; the notice of a breach is followed by that
    -- settlement at once; the session settles at most once, and nothing is posted behind it.
    pub serve_all-conforms :
        (is : List ServerInput)
        → (w : Session) × (conforms (serve_all can_post is new_server).1 (some (before false))
            ≡ some w)
          × Follows (serve_all can_post is new_server).0 w
    serve_all-conforms is = serve_all-Goes is new_server (before false) (0, refl)
