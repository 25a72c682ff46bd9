-- ===== src/Messaging/Inbound/Conserved.antt =====
-- Where the messages of packages/messaging/src/agent-messaging.ts go, counted by any weight.
use open_claw_bot.Common.{
  ℕ, ◌+◌, ◌≡◌, refl, ap, ◌∙◌, Bool, true, not, ◌&&◌, List, [], ◌∷◌, ◌++◌, map, keep, any, is_empty,
  if◌then◌else◌, arith, Bool-cases, inl, inr,
}
use open_claw_bot.Messaging.Inbound.{
  InboundMessage, Envelope, Wake, idle, running, Inbound, Turn, ended, aborted, aborted_and_gone,
  threw, Event, arrives, wakes, turns, no_messages, is_priority, is_ordinary, received, displayed,
  redriven, prioritize, merge_queues, receive, start_wake, go_on, redrive, run_turn, preempt,
  step_wake, start_if_idle, step, run, arrivals,
}

-- The sum of a weight over envelopes.
abbrev pub total : (Envelope → ℕ) → List Envelope → ℕ
total f [] = 0
total f (e ∷ es) = f e + total f es

pub total-append :
    (f : Envelope → ℕ) (xs ys : List Envelope) → total f (xs ++ ys) ≡ total f xs + total f ys
total-append f [] ys = omega arith
total-append f (x ∷ xs) ys = omega (arith, total-append f xs ys)

pub total-keep :
    (f : Envelope → ℕ) (p : Envelope → Bool) (xs : List Envelope)
    → total f (keep p xs) + total f (keep (λ e. not (p e)) xs) ≡ total f xs
total-keep f p [] = omega arith
total-keep f p (x ∷ xs) = elim (Bool-cases (p x)) [
  | inl early ↦ rw early (omega (arith, total-keep f p xs))
  | inr late ↦ rw late (omega (arith, total-keep f p xs))
]

pub total-prioritize :
    (f : Envelope → ℕ) (xs : List Envelope) → total f (prioritize xs) ≡ total f xs
unfolding prioritize
total-prioritize f xs =
    total-append f (keep is_priority xs) (keep is_ordinary xs) ∙ total-keep f is_priority xs

pub total-merge_queues :
    (f : Envelope → ℕ) (xs ys : List Envelope)
    → total f (merge_queues xs ys) ≡ total f xs + total f ys
unfolding merge_queues
total-merge_queues f xs ys =
    let a = keep is_priority xs in
    let b = keep is_priority ys in
    let c = keep is_ordinary ys in
    omega (
      arith,
      total-append f (a ++ b ++ c) (keep is_ordinary xs),
      total-append f (a ++ b) c,
      total-append f a b,
      total-keep f is_priority xs,
      total-keep f is_priority ys,
    )

pub total-map :
    (f g : Envelope → ℕ) (h : Envelope → Envelope) (xs : List Envelope)
    → ((e : Envelope) → f (h e) ≡ g e)
    → total f (map h xs) ≡ total g xs
total-map f g h [] same = refl
total-map f g h (x ∷ xs) same = omega (arith, same x, total-map f g h xs same)

abbrev pub batch_of : Wake → List Envelope
batch_of idle = []
batch_of (running begun batch) = batch

pub batch_of-go_on : (es : List Envelope) → batch_of (go_on es) ≡ es
batch_of-go_on [] = refl
batch_of-go_on (e ∷ es) = refl

-- A weight that does not look at the marks of an envelope, such as 1 for each message of a kind.
module _ (f : InboundMessage → ℕ) where
  abbrev pub weigh : Envelope → ℕ
  weigh e = f e.message

  -- Everything that has come in and where it is now.
  abbrev pub held : Inbound → ℕ
  held s =
      total weigh s.pending
      + total weigh (batch_of s.wake)
      + total weigh s.done
      + total weigh s.dropped

  redrive-held :
      (batch : List Envelope) (s : Inbound)
      → held (redrive batch s)
        ≡ total weigh s.pending + total weigh batch + total weigh s.done + total weigh s.dropped
  unfolding redrive
  redrive-held batch s =
      let old = keep (λ (e : Envelope). not (not e.is_redriven)) batch in
      let again = keep (λ (e : Envelope). not e.is_redriven) batch in
      let split = total-keep weigh (λ e. e.is_redriven) batch in
      let out = total-append weigh s.dropped (keep (λ e. e.is_redriven) batch) in
      let mapped = total-map weigh weigh redriven again (λ e. refl) in
      elim (Bool-cases (is_empty (map redriven again))) [
        | inl nothing ↦
            rw nothing (let zero_left = total_empty (map redriven again) nothing in omega arith)
        | inr something ↦
            rw something (omega (arith, total-merge_queues weigh s.pending (map redriven again)))
      ]
    where
      total_empty : (xs : List Envelope) → is_empty xs ≡ true → total weigh xs ≡ 0
      total_empty [] e = refl
      total_empty (x ∷ xs) e = cc

  run_turn-held :
      (t : Turn) (e : Envelope) (es : List Envelope) (s : Inbound)
      → held (run_turn t e es s)
        ≡ total weigh s.pending + total weigh (e ∷ es) + total weigh s.done + total weigh s.dropped
  unfolding run_turn
  run_turn-held ended e es s =
      rw (batch_of-go_on es) (omega (arith, total-append weigh s.done (e ∷ [])))
  run_turn-held aborted e es s = redrive-held (e ∷ es) (record s { ran = s.ran ++ e ∷ [] })
  run_turn-held aborted_and_gone e es s = omega (arith, total-append weigh s.dropped (e ∷ es))
  run_turn-held threw e es s = omega (arith, total-append weigh s.dropped (e ∷ es))

  step_wake-held :
      (t : Turn) (w : Wake) (s : Inbound)
      → s.wake ≡ w
      → held (step_wake t w s)
        ≡ total weigh s.pending
          + total weigh (batch_of w)
          + total weigh s.done
          + total weigh s.dropped
  unfolding step_wake
  step_wake-held t idle s now =
      (let none_left = ap (λ w. total weigh (batch_of w)) now in omega arith)
  step_wake-held t (running begun []) s now = omega arith
  step_wake-held t (running begun (e ∷ es)) s now =
      elim (Bool-cases (begun && any is_priority s.pending)) [
        | inl newer ↦ rw newer (
            unfold preempt in
            omega (
              arith,
              total-merge_queues weigh s.pending (map displayed (e ∷ es)),
              total-map weigh weigh displayed (e ∷ es) (λ x. refl),
            ))
        | inr alone ↦ rw alone (run_turn-held t e es s)
      ]

  start-held :
      (is_reachable : Bool) (w : Wake) (s : Inbound)
      → s.wake ≡ w
      → held (start_if_idle is_reachable w s) ≡ held s
  start-held is_reachable (running begun batch) s now = refl
  start-held is_reachable idle s now =
      let waiting = total-prioritize weigh s.pending in
      let none_left = ap (λ w. total weigh (batch_of w)) now in
      elim (Bool-cases (is_empty s.pending)) [
        | inl nobody ↦ unfold start_wake in rw (nobody, start_if_idle) refl
        | inr somebody ↦ elim (Bool-cases (not is_reachable)) [
          | inl away ↦
              unfold start_wake in
              rw (somebody, start_if_idle)
                (rw away (omega (arith, total-append weigh s.dropped (prioritize s.pending))))
          | inr there ↦ unfold start_wake in rw (somebody, start_if_idle) (rw there (omega arith))
        ]
      ]

  abbrev pub sum : List InboundMessage → ℕ
  sum [] = 0
  sum (m ∷ ms) = f m + sum ms

  run-held : (es : List Event) (s : Inbound) → held (run es s) ≡ held s + sum (arrivals es)
  unfolding step
  run-held [] s = omega arith
  run-held (arrives m ∷ es) s =
      let later = run-held es (receive m s) in
      let back = total-append weigh s.pending (received m ∷ []) in
      elim (Bool-cases m.priority) [
        | inl first ↦ omega (
          arith,
          later,
          ap
              (λ b. held (
                if b
                then record s { pending = received m ∷ s.pending }
                else record s { pending = s.pending ++ received m ∷ [] }))
              first,
        )
        | inr last ↦ omega (
          arith,
          later,
          ap
              (λ b. held (
                if b
                then record s { pending = received m ∷ s.pending }
                else record s { pending = s.pending ++ received m ∷ [] }))
              last,
        )
      ]
  run-held (wakes is_reachable ∷ es) s =
      run-held es (start_if_idle is_reachable s.wake s)
      ∙ ap (λ n. n + sum (arrivals es)) (start-held is_reachable s.wake s refl)
  run-held (turns t ∷ es) s =
      run-held es (step_wake t s.wake s)
      ∙ ap (λ n. n + sum (arrivals es)) (step_wake-held t s.wake s refl)

  -- No message is lost from sight and none is doubled: over every history of arrivals, wakes and
  -- turns, by any weight of messages (such as 1 for the messages from one agent), what has come in is
  -- what waits, what is left of the running batch, what is done and what was dropped.
  pub run-conserves :
      (es : List Event)
      → let s = run es no_messages in
        total weigh s.pending
          + total weigh (batch_of s.wake)
          + total weigh s.done
          + total weigh s.dropped
        ≡ sum (arrivals es)
  run-conserves es = omega (arith, run-held es no_messages)
