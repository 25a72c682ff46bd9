-- ===== src/Transport/Port/Counts.antt =====
-- Counts over the outputs of a client of packages/transport/src/port.ts.
use open_claw_bot.Common.{
  ℕ, ◌+◌, ◌<◌, ◌≡◌, refl, subst, ◌∙◌, inl, inr, Bool, true, false, none, some, List, [], ◌∷◌, ◌++◌,
  map, ◌==◌, is_some, arith, Bool-cases,
}
use open_claw_bot.Common.Texts.{Text, text_eq, text_beq_iff}
use open_claw_bot.Common.Decimal.{decimal-injective}
use open_claw_bot.Common.Maps.{Dict, get, delete, get-delete, IsDistinct, delete-IsDistinct}
use open_claw_bot.Transport.Frames.{client_lifecycle, request}
use open_claw_bot.Transport.Port.Client.{
  PortClient, ClientOutput, sends, resolves, rejects, throws_at, calls_handler, closes_channel,
  client_settles, port_closed_of, request_label,
}

abbrev pub one_if : Bool → ℕ
one_if true = 1
one_if false = 0

-- What an output adds to the requests sent under the id `k`, to the ends of their promises, and to
-- the waiters that a null outcome lost.
abbrev pub asked_by : Text → ClientOutput → ℕ
asked_by k (sends (request id method args)) = one_if (id == k)
asked_by k (sends (client_lifecycle p)) = 0
asked_by k (resolves id value) = 0
asked_by k (rejects id why) = 0
asked_by k (throws_at id) = 0
asked_by k (calls_handler h payload) = 0
asked_by k closes_channel = 0
asked_by k (client_settles how) = 0

abbrev pub ended_by : Text → ClientOutput → ℕ
ended_by k (sends f) = 0
ended_by k (resolves id value) = one_if (id == k)
ended_by k (rejects id why) = one_if (id == k)
ended_by k (throws_at id) = 0
ended_by k (calls_handler h payload) = 0
ended_by k closes_channel = 0
ended_by k (client_settles how) = 0

abbrev pub lost_by : Text → ClientOutput → ℕ
lost_by k (sends f) = 0
lost_by k (resolves id value) = 0
lost_by k (rejects id why) = 0
lost_by k (throws_at id) = one_if (id == k)
lost_by k (calls_handler h payload) = 0
lost_by k closes_channel = 0
lost_by k (client_settles how) = 0

unfoldable pub sum_by : (ClientOutput → ℕ) → List ClientOutput → ℕ
sum_by f [] = 0
sum_by f (o ∷ os) = f o + sum_by f os

pub sum_by-append :
    (f : ClientOutput → ℕ) (xs ys : List ClientOutput)
    → sum_by f (xs ++ ys) ≡ sum_by f xs + sum_by f ys
unfolding sum_by
sum_by-append f [] ys = omega arith
sum_by-append f (x ∷ xs) ys = omega (arith, sum_by-append f xs ys)

-- Does the request `k` wait?
abbrev pub waits_for : Text → PortClient → ℕ
waits_for k c = one_if (is_some (get c.pending k))

abbrev IsFresh : PortClient → Type 0
IsFresh c = (n : ℕ) → c.next_request_id < n → get c.pending (request_label n) ≡ none

abbrev pub IsSound : PortClient → Type 0
IsSound c = IsDistinct c.pending × IsFresh c

abbrev pub Balances : Text → PortClient → PortClient × List ClientOutput → Type 0
Balances k c r =
    (sum_by (asked_by k) r.1 + waits_for k c
      ≡ sum_by (ended_by k) r.1 + sum_by (lost_by k) r.1 + waits_for k r.0)
    × IsSound r.0

request_label-injective : (m n : ℕ) → request_label m ≡ request_label n → m ≡ n
unfolding request_label
request_label-injective m n e = decimal-injective m n (cc)

pub label_other : (m n : ℕ) → m < n → (request_label m == request_label n) ≡ false
label_other m n h = elim (Bool-cases (request_label m == request_label n)) [
  | inl same ↦
      (let e =
          request_label-injective m n ((text_beq_iff (request_label m) (request_label n)).0 same) in
        absurd (omega arith))
  | inr other ↦ other
]

-- The rejections of a settlement are one for each waiting request.
pub closed_counts :
    (k : Text) (m : Dict Text Text)
    → IsDistinct m
    → (sum_by (ended_by k) (map port_closed_of m) ≡ one_if (is_some (get m k)))
      × (sum_by (asked_by k) (map port_closed_of m) ≡ 0)
      × (sum_by (lost_by k) (map port_closed_of m) ≡ 0)
unfolding sum_by get
closed_counts k [] h = (refl, refl, refl)
closed_counts k ((id, method) ∷ m) (free, others) = elim (Bool-cases (id == k)) [
  | inl same ↦
      let gone : get m k ≡ none = subst (λ x. get m x ≡ none) ((text_beq_iff id k).0 same) free in
      let rest = closed_counts k m others in
      rw (same, rest.0, rest.1, rest.2, gone) (refl, refl, refl)
  | inr other ↦ rw (other) (omega (arith, closed_counts k m others))
]

pub handlers_count :
    (k : Text) (payload : ℕ) (hs : List ℕ)
    → (sum_by (asked_by k) (map (λ h. calls_handler h payload) hs) ≡ 0)
      × (sum_by (ended_by k) (map (λ h. calls_handler h payload) hs) ≡ 0)
      × (sum_by (lost_by k) (map (λ h. calls_handler h payload) hs) ≡ 0)
unfolding sum_by
handlers_count k payload [] = (refl, refl, refl)
handlers_count k payload (h ∷ hs) = omega (arith, handlers_count k payload hs)

pub delete-IsSound :
    (c : PortClient) (id : Text) → IsSound c → IsSound (record c { pending = delete c.pending id })
delete-IsSound c id (distinct, fresh) = (
  delete-IsDistinct c.pending id distinct,
  λ n h. get-delete c.pending id (request_label n) ∙ rw (fresh n h) (ground arith),
)

-- What a waiter's removal takes from the waiting.
pub removed_count :
    (k id : Text) (c : PortClient) (method : Text)
    → get c.pending id ≡ some method
    → waits_for k c ≡ one_if (id == k) + one_if (is_some (get (delete c.pending id) k))
removed_count k id c method found = elim (Bool-cases (id == k)) [
  | inl same ↦
      let here : get c.pending k ≡ some method =
        subst (λ x. get c.pending x ≡ some method) ((text_beq_iff id k).0 same) found in
      rw (get-delete c.pending id k, same, here) refl
  | inr other ↦ rw (get-delete c.pending id k, other) (omega arith)
]
