-- ===== src/State/Transcript/Ids.antt =====
-- The ids that `nextEntryId` of packages/state/src/transcript.ts mints.
use native.Mathlib.Nat.{le_trans}
use open_claw_bot.Common.{
  ℕ, ◌+◌, ◌≤◌, ◌≡◌, ◌≢◌, max, refl, ap, subst, ◌∙◌, inl, inr, true, false, some, List, [], ◌∷◌,
  ◌++◌, if◌then◌else◌, ◌==◌, nat_eq, or_else, All, arith, Bool-cases, nat_beq_iff,
}
use open_claw_bot.Common.Texts.{Text, text_eq}
use open_claw_bot.Common.Decimal.{
  decimal, digits_value, is_digit_char, all_digits, value-decimal, digits-decimal, decimal-ne-nil,
}
use open_claw_bot.State.Transcript.{
  SandTranscriptEntry, entry_id, span_digits, parse_turn, is_kind_char, parse_seq, highest_seq,
  EntryKind, user_message_kind, assistant_message_kind, attachment_kind, notice_kind, prefix_of,
  last_turn, next_entry_id,
}

tail_digits : (d : ℕ) (ds : Text) → all_digits (d ∷ ds) ≡ true → all_digits ds ≡ true
unfolding all_digits
tail_digits d ds h = elim (Bool-cases (all_digits ds)) [ inl good ↦ good | inr bad ↦ ground arith ]

span-append :
    (ds : Text) (k : ℕ) (rest : Text)
    → all_digits ds ≡ true
    → is_digit_char k ≡ false
    → span_digits (ds ++ (k ∷ rest)) ≡ (ds, k ∷ rest)
unfolding span_digits all_digits
span-append [] k rest h other = rw other
span-append (d ∷ ds) k rest h other = elim (Bool-cases (is_digit_char d)) [
  | inl digit ↦ rw (digit, span-append ds k rest (tail_digits d ds h) other) refl
  | inr odd ↦ (let bad : false ≡ true = rw odd at h in cc)
]

prefix-facts :
    (kind : EntryKind)
    → (is_digit_char (prefix_of kind) ≡ false) × (is_kind_char (prefix_of kind) ≡ true)
unfolding prefix_of
prefix-facts user_message_kind = (refl, refl)
prefix-facts assistant_message_kind = (refl, refl)
prefix-facts attachment_kind = (refl, refl)
prefix-facts notice_kind = (refl, refl)

-- An id of the minted form.
abbrev minted_id : ℕ → EntryKind → ℕ → Text
minted_id turn kind seq = b't' ∷ (decimal turn ++ (prefix_of kind ∷ decimal seq))

span-minted :
    (turn seq : ℕ) (kind : EntryKind)
    → span_digits (decimal turn ++ (prefix_of kind ∷ decimal seq))
      ≡ (decimal turn, prefix_of kind ∷ decimal seq)
span-minted turn seq kind =
    span-append (decimal turn) (prefix_of kind) (decimal seq) (digits-decimal turn)
      (prefix-facts kind).0

parse_turn-minted : (turn seq : ℕ) (kind : EntryKind) → parse_turn (minted_id turn kind seq) ≡ turn
unfolding parse_turn
parse_turn-minted turn seq kind =
    ap (λ r. digits_value 0 r.0) (span-minted turn seq kind) ∙ value-decimal turn

parse_seq-minted :
    (turn seq : ℕ) (kind : EntryKind) → parse_seq (minted_id turn kind seq) ≡ some seq
unfolding parse_seq
parse_seq-minted turn seq kind =
    rw
      (
        span-minted turn seq kind,
        decimal-ne-nil turn,
        decimal-ne-nil seq,
        digits-decimal seq,
        (prefix-facts kind).1,
      )
      (ap some (value-decimal seq))

-- What the loop carries on behind an entry.
abbrev next_seq : ℕ → ℕ → SandTranscriptEntry → ℕ
next_seq turn seq e =
    if parse_turn (entry_id e) == turn then max seq (or_else (parse_seq (entry_id e)) 0) else seq

next-le : (turn seq : ℕ) (e : SandTranscriptEntry) → seq ≤ next_seq turn seq e
next-le turn seq e = elim (Bool-cases (parse_turn (entry_id e) == turn)) [
  | inl same ↦ rw same (omega arith)
  | inr other ↦ rw other (omega arith)
]

seq-le-next :
    (turn seq : ℕ) (e : SandTranscriptEntry)
    → parse_turn (entry_id e) ≡ turn
    → or_else (parse_seq (entry_id e)) 0 ≤ next_seq turn seq e
seq-le-next turn seq e same = rw ((nat_beq_iff (parse_turn (entry_id e)) turn).1 same) (omega arith)

le-highest : (turn seq : ℕ) (es : List SandTranscriptEntry) → seq ≤ highest_seq turn es seq
unfolding highest_seq
le-highest turn seq [] = omega arith
le-highest turn seq (e ∷ es) =
    le_trans (next-le turn seq e) (le-highest turn (next_seq turn seq e) es)

-- The loop passes over no number of its turn.
highest-covers :
    (turn seq : ℕ) (es : List SandTranscriptEntry)
    → All
        (λ e.
          parse_turn (entry_id e) ≡ turn
          → or_else (parse_seq (entry_id e)) 0 ≤ highest_seq turn es seq)
        es
unfolding highest_seq
highest-covers turn seq [] = tt
highest-covers turn seq (e ∷ es) =
    let next = next_seq turn seq e in
    (
      λ same. le_trans (seq-le-next turn seq e same) (le-highest turn next es),
      highest-covers turn next es,
    )

All-map {ℓ κ κ'} :
    {A : Type ℓ} {P : A → Type κ} {Q : A → Type κ'} (f : (x : A) → P x → Q x) (xs : List A)
    → All P xs
    → All Q xs
All-map f [] h = tt
All-map f (x ∷ xs) (first, others) = (f x first, All-map f xs others)

-- An id that is minted is that of no entry; it stays in the turn of the last entry, and is read back
-- as that turn and a number above every number of it.
pub next_entry_id-fresh :
    (es : List SandTranscriptEntry) (kind : EntryKind)
    → All (λ e. entry_id e ≢ next_entry_id es kind) es
      × (parse_turn (next_entry_id es kind) ≡ last_turn es)
      × (parse_seq (next_entry_id es kind) ≡ some (highest_seq (last_turn es) es 0 + 1))
unfolding next_entry_id
next_entry_id-fresh es kind =
    let turn = last_turn es in
    let top = highest_seq turn es 0 in
    (
      All-map
          (λ e low same.
            let t : parse_turn (entry_id e) ≡ turn =
              ap parse_turn same ∙ parse_turn-minted turn (top + 1) kind in
            let q : parse_seq (entry_id e) ≡ some (top + 1) =
              ap parse_seq same ∙ parse_seq-minted turn (top + 1) kind in
            let bad = subst (λ o. or_else o 0 ≤ top) q (low t) in absurd (omega arith))
          es (highest-covers turn 0 es),
      parse_turn-minted turn (top + 1) kind,
      parse_seq-minted turn (top + 1) kind,
    )
