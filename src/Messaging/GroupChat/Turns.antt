-- ===== src/Messaging/GroupChat/Turns.antt =====
-- Who speaks when, and what a member has not seen, in packages/messaging/src/group-chat.ts.
use native.Mathlib.Decide.{dec_lt}
use native.Mathlib.Nat.{add-mod_right, mod-mod}
use open_claw_bot.Common.{
  rotate-perm, length-rotate, head-rotate, ℕ, zero, suc, ◌+◌, ◌%◌, ◌≤◌, ◌<◌, ◌≡◌, refl, sym, ap,
  ◌∙◌, ◌⊎◌, inl, inr, true, false, some, List, [], ◌∷◌, Perm, length, drop, get_elem?, arith,
  Bool-cases, Option-cases,
}
use open_claw_bot.Common.Texts.{Text, text_eq}
use open_claw_bot.Messaging.GroupChat.{
  Message, order_round_speakers, is_by, after_last_spoke, messages_since_member_last_spoke,
}

module _ {A : Type 0} where
  get_elem?-drop : (k i : ℕ) (xs : List A) → get_elem? (drop k xs) i ≡ get_elem? xs (k + i)
  get_elem?-drop zero i xs = ap (get_elem? xs) (omega arith)
  get_elem?-drop (suc k) i [] = refl
  get_elem?-drop (suc k) i (x ∷ xs) =
      get_elem?-drop k i xs
      ∙ (let e : suc (k + i) ≡ suc k + i = omega arith in ap (get_elem? (x ∷ xs)) e)

  get_elem?-lt : (xs : List A) (i : ℕ) (x : A) → get_elem? xs i ≡ some x → i < length xs
  get_elem?-lt [] i x e = cc
  get_elem?-lt (y ∷ ys) zero x e = omega arith
  get_elem?-lt (y ∷ ys) (suc i) x e = omega (arith, get_elem?-lt ys i x e)

-- Each round asks every responder exactly once, and round `r` begins with the responder at `r`
-- modulo their number, so that the first turn goes round.
pub order_round_speakers-rotates :
    (id : Text) (others : List Text) (round : ℕ)
    → let ids = id ∷ others in
      Perm (order_round_speakers ids round) ids
      × (get_elem? (order_round_speakers ids round) 0 ≡ get_elem? ids (round % length ids))
unfolding order_round_speakers
order_round_speakers-rotates id others round =
    let ids : List Text = id ∷ others in
    let offset : (round % length ids + length ids) % length ids ≡ round % length ids =
      add-mod_right (round % length ids) (length ids) ∙ mod-mod round (length ids) in
    (rotate-perm _ ids, rw offset (head-rotate (round % length ids) ids _ (omega arith)))

pub length-order_round_speakers :
    (ids : List Text) (round : ℕ) → length (order_round_speakers ids round) ≡ length ids
unfolding order_round_speakers
length-order_round_speakers [] round = refl
length-order_round_speakers (id ∷ others) round = length-rotate _ (id ∷ others)

-- The loop's answer points behind the last message of the member among the first `n`.
record Last (history : List Message) (id : Text) (n k : ℕ) : Type 0 where
  bounded : k ≤ n
  quiet :
      (j : ℕ) (m : Message)
      → k ≤ j
      → j < n
      → get_elem? history j ≡ some m
      → is_by id m.speaker ≡ false
  theirs :
      (k ≡ 0)
      ⊎ ((i : ℕ) × (m : Message) × (k ≡ suc i)
          × (get_elem? history i ≡ some m)
          × (is_by id m.speaker ≡ true))

skip-Last :
    (history : List Message) (id : Text) (n k : ℕ)
    → Last history id n k
    → ((m : Message) → get_elem? history n ≡ some m → is_by id m.speaker ≡ false)
    → Last history id (suc n) k
skip-Last history id n k h other = record {
  bounded = omega (arith, h.bounded);
  quiet = λ j m le lt here. elim (dec_lt j n) [
    | yes before ↦ h.quiet j m le before here
    | no behind ↦ let now : j ≡ n = omega arith in other m (ap (get_elem? history) (sym now) ∙ here)
  ];
  theirs = h.theirs;
}

after_last_spoke-Last :
    (history : List Message) (id : Text) (n : ℕ) → Last history id n (after_last_spoke history id n)
unfolding after_last_spoke
after_last_spoke-Last history id zero = record {
  bounded = omega arith;
  quiet = λ j m le lt. absurd (omega arith);
  theirs = inl refl;
}
after_last_spoke-Last history id (suc n) =
    let before = after_last_spoke-Last history id n in
    elim (Option-cases (get_elem? history n)) [
      | inl e ↦ rw (e, after_last_spoke) (skip-Last history id n _ before (λ m here. cc))
      | inr (m, e) ↦ elim (Bool-cases (is_by id m.speaker)) [
        | inr other ↦
            rw (e, after_last_spoke)
              (rw other (skip-Last history id n _ before (λ m' here. ground arith)))
        | inl own ↦
            rw (e, after_last_spoke)
              (rw own (record {
                bounded = omega arith;
                quiet = λ j m' le lt. absurd (omega arith);
                theirs = inr (n, m, refl, e, own);
              }))
      ]
    ]

-- What a member is shown: no message of its own, and the rest of the history behind the last
-- message that it sent, or the whole history if it sent none.
pub messages_since_member_last_spoke-rest :
    (history : List Message) (id : Text)
    → let since = messages_since_member_last_spoke history id in
      ((i : ℕ) (m : Message) → get_elem? since i ≡ some m → is_by id m.speaker ≡ false)
      × ((since ≡ history)
          ⊎ ((i : ℕ) × (m : Message) × (since ≡ drop (suc i) history)
              × (get_elem? history i ≡ some m)
              × (is_by id m.speaker ≡ true)))
unfolding messages_since_member_last_spoke
messages_since_member_last_spoke-rest history id =
    let last = after_last_spoke-Last history id (length history) in
    (
      λ i m here.
          let there =
            sym (get_elem?-drop (after_last_spoke history id (length history)) i history) ∙ here in
          last.quiet _ m (omega arith) (get_elem?-lt history _ m there) there,
      elim last.theirs [
        | inl none_yet ↦ inl (rw none_yet refl)
        | inr (i, m, e, here, own) ↦ inr (i, m, rw e refl, here, own)
      ],
    )
