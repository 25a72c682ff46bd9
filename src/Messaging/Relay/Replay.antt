-- ===== src/Messaging/Relay/Replay.antt =====
-- The cache of results by nonce in packages/messaging/src/cross-user-relay.ts.
use open_claw_bot.Common.{
  ℕ, ◌+◌, ◌≤◌, ◌<◌, ◌++◌, ◌≡◌, refl, ◌∙◌, inl, inr, Bool, true, false, none, some, List, [], ◌∷◌,
  length, length-take, length-keep-le, length-append, ap, ◌==◌, arith, Bool-cases,
}
use open_claw_bot.Common.Maps.{get, set, get-set, ==_refl}
use open_claw_bot.Common.Texts.{Text, text_eq}
use open_claw_bot.Messaging.Relay.{
  CrossUserRelay, TurnRequest, TurnResult, Event, begins, completes, fails, registers, answers,
  diagnoses, in_window, prune_window, admit, replayed, dispatched, begin_turn, complete_turn,
  fail_turn, cap_texts, on_turn_request, answer_turn_request, diagnostics, step, run,
}
use open_claw_bot.Messaging.Relay.Budget.{begin_turn-cases}

-- Events that store a result under a nonce: a turn that completes, and an answer.
abbrev pub stores : Text → Event → Bool
stores nonce (completes request result) = request.nonce == nonce
stores nonce (answers request texts) = request.nonce == nonce
stores nonce _ = false

abbrev pub IsQuiet : Text → List Event → Type 0
IsQuiet nonce [] = Unit
IsQuiet nonce (e ∷ es) = (stores nonce e ≡ false) × IsQuiet nonce es

begin_turn-results :
    (now : ℕ) (request : TurnRequest) (s : CrossUserRelay)
    → (begin_turn now request s).1.results ≡ s.results
begin_turn-results now request s = elim (begin_turn-cases now request s) [
  | inl (c, _, e) ↦ rw e refl
  | inr (inl (_, e)) ↦ rw e refl
  | inr (inr (_, _, e)) ↦ rw e (unfold admit prune_window in ground arith)
]

step-get :
    (s : CrossUserRelay) (e : Event) (nonce : Text)
    → stores nonce e ≡ false
    → get (step s e).results nonce ≡ get s.results nonce
unfolding step complete_turn fail_turn on_turn_request answer_turn_request diagnostics
step-get s (begins now request) nonce h = rw (begin_turn-results now request s)
step-get s (completes request result) nonce h =
    ground (arith, get-set s.results request.nonce nonce (cap_texts result.nonce result.texts))
step-get s (fails now) nonce h = refl
step-get s registers nonce h = refl
step-get s (answers request texts) nonce h =
    ground (arith, get-set s.results request.nonce nonce (cap_texts request.nonce texts))
step-get s (diagnoses now) nonce h = refl

run-get :
    (s : CrossUserRelay) (es : List Event) (nonce : Text)
    → IsQuiet nonce es
    → get (run s es).results nonce ≡ get s.results nonce
unfolding run
run-get s [] nonce h = refl
run-get s (e ∷ es) nonce h = rw (run-get (step s e) es nonce h.1) (step-get s e nonce h.0)

cached-replays :
    (now : ℕ) (request : TurnRequest) (s : CrossUserRelay) {c : TurnResult}
    → get s.results request.nonce ≡ some c
    → begin_turn now request s ≡ (replayed c, s)
unfolding begin_turn
cached-replays now request s e = ground arith

completed-get :
    (s : CrossUserRelay) (request : TurnRequest) (result : TurnResult)
    → get (complete_turn request result s).1.results request.nonce
      ≡ some (cap_texts result.nonce result.texts)
unfolding complete_turn
completed-get s request result = ground (
  arith,
  get-set s.results request.nonce request.nonce (cap_texts result.nonce result.texts),
  ==_refl request.nonce,
)

-- Idempotency: once a turn has completed, a request with its nonce returns the capped result and
-- changes nothing, at any time and after any events that store no other result under that nonce,
-- whatever the budget and the backoff say.
pub completed_replays :
    (s : CrossUserRelay) (first again : TurnRequest) (result : TurnResult) (es : List Event)
    (now : ℕ)
    → again.nonce ≡ first.nonce
    → IsQuiet first.nonce es
    → let s' = run (complete_turn first result s).1 es in
      begin_turn now again s' ≡ (replayed (cap_texts result.nonce result.texts), s')
completed_replays s first again result es now same quiet =
    cached-replays now again (run (complete_turn first result s).1 es) (
      rw same (
        run-get (complete_turn first result s).1 es first.nonce quiet
        ∙ completed-get s first result))

-- The relay after a turn that it sends at the time `now`.
abbrev with_turn : ℕ → CrossUserRelay → CrossUserRelay
with_turn now s = record s { turn_timestamps = (prune_window now s).turn_timestamps ++ now ∷ [] }

begin_sends :
    (now : ℕ) (request : TurnRequest) (s : CrossUserRelay)
    → get s.results request.nonce ≡ none
    → s.unreachable_until ≤ now
    → length (prune_window now s).turn_timestamps < s.budget_max_per_window
    → begin_turn now request s ≡ (dispatched, with_turn now s)
unfolding begin_turn
begin_sends now request s unseen due room = ground arith

with_turn-length :
    (now : ℕ) (s : CrossUserRelay)
    → length (prune_window now (with_turn now s)).turn_timestamps
      ≤ length (prune_window now s).turn_timestamps + 1
unfolding prune_window
with_turn-length now s = omega (
  arith,
  length-keep-le (in_window s.budget_window_ms now) (with_turn now s).turn_timestamps,
  length-append (prune_window now s).turn_timestamps (now ∷ []),
)

-- A request that repeats a nonce while the first turn is still in flight is not recognised: if the
-- first was sent and the budget has room for one more, the second is sent too.
pub in_flight_resends :
    (s : CrossUserRelay) (first again : TurnRequest) (now : ℕ)
    → again.nonce ≡ first.nonce
    → (begin_turn now first s).0 ≡ dispatched
    → length (prune_window now s).turn_timestamps + 1 < s.budget_max_per_window
    → (begin_turn now again (begin_turn now first s).1).0 ≡ dispatched
in_flight_resends s first again now same sent room = elim (begin_turn-cases now first s) [
  | inl (c, _, b) ↦ cc
  | inr (inl (_, b)) ↦ cc
  | inr (inr (unseen, due, _)) ↦ rw (begin_sends now first s unseen due (omega arith)) (
      ap (λ r. r.0)
        (begin_sends now again (with_turn now s) (rw same unseen) due
          (omega (arith, with_turn-length now s))))
]

-- The hosted side does not look the nonce up at all: with a handler registered, a repeated request
-- is answered by what the handler returns now, which also replaces the stored result.
pub answer_reruns :
    (s : CrossUserRelay) (request : TurnRequest) (old : TurnResult) (texts : List Text)
    → s.has_turn_handler ≡ true
    → get s.results request.nonce ≡ some old
    → (s' : CrossUserRelay) × (answer_turn_request request texts s
        ≡ some (cap_texts request.nonce texts, s'))
      × (get s'.results request.nonce ≡ some (cap_texts request.nonce texts))
unfolding answer_turn_request
answer_reruns s request old texts handler seen = (
  (record s { results = set s.results request.nonce (cap_texts request.nonce texts) }),
  ground arith,
  ground (
    arith,
    get-set s.results request.nonce request.nonce (cap_texts request.nonce texts),
    ==_refl request.nonce,
  ),
)

-- No stored result has more texts than a remote turn may return.
abbrev pub IsCapped : CrossUserRelay → Type 0
IsCapped s = (nonce : Text) (r : TurnResult) → get s.results nonce ≡ some r → length r.texts ≤ 2

cap_texts-le : (nonce : Text) (texts : List Text) → length (cap_texts nonce texts).texts ≤ 2
unfolding cap_texts
cap_texts-le nonce texts = omega (arith, length-take 2 texts)

set-IsCapped :
    (s : CrossUserRelay) (key nonce : Text) (texts : List Text)
    → IsCapped s
    → IsCapped (record s { results = set s.results key (cap_texts nonce texts) })
set-IsCapped s key nonce texts h other r e = ground (
  arith,
  get-set s.results key other (cap_texts nonce texts),
  cap_texts-le nonce texts,
  h other r,
)

step-IsCapped : (s : CrossUserRelay) (e : Event) → IsCapped s → IsCapped (step s e)
unfolding step complete_turn fail_turn on_turn_request answer_turn_request diagnostics
step-IsCapped s (begins now request) h =
    λ nonce r e. h nonce r (rw (begin_turn-results now request s) at e)
step-IsCapped s (completes request result) h =
    set-IsCapped s request.nonce result.nonce result.texts h
step-IsCapped s (fails now) h = h
step-IsCapped s registers h = h
step-IsCapped s (answers request texts) h = elim (Bool-cases s.has_turn_handler) [
  | inl e ↦ simp e (set-IsCapped s request.nonce request.nonce texts h)
  | inr e ↦ simp e h
]
step-IsCapped s (diagnoses now) h = h

-- Over every history from a relay whose results are capped, every result that a turn replays has at
-- most two texts.
pub replayed_capped :
    (s : CrossUserRelay) (es : List Event) (now : ℕ) (request : TurnRequest) (r : TurnResult)
    → IsCapped s
    → (begin_turn now request (run s es)).0 ≡ replayed r
    → length r.texts ≤ 2
unfolding run
replayed_capped s [] now request r h e = elim (begin_turn-cases now request s) [
  | inl (c, hit, b) ↦ h request.nonce r (ground arith)
  | inr (inl (_, b)) ↦ ground arith
  | inr (inr (_, _, b)) ↦ unfold admit in ground arith
]
replayed_capped s (e ∷ es) now request r h same =
    replayed_capped (step s e) es now request r (step-IsCapped s e h) same
