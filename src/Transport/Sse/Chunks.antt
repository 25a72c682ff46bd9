-- ===== src/Transport/Sse/Chunks.antt =====
-- The stream of packages/transport/src/sse.ts does not depend on how it is cut into chunks: the
-- decoder is an automaton that reads one character at a time.
use mathlib.Core.List.{append_assoc, append-nil}
use open_claw_bot.Common.{
  ℕ, zero, suc, ◌≤◌, ◌<◌, ◌≡◌, refl, sym, ap, ◌∙◌, ◌⊎◌, inl, inr, true, false, ◌&&◌, none, some,
  List, [], ◌∷◌, ◌++◌, length, drop, if◌then◌else◌, nat_beq, arith, Bool-cases,
}
use open_claw_bot.Common.Texts.{Text}
use open_claw_bot.Transport.Sse.{starts_line, cut_block, emit, drain, push, push_all}

-- The reversed `xs` before `ys`.
abbrev pub unwind : Text → Text → Text
unwind [] ys = ys
unwind (x ∷ xs) ys = unwind xs (x ∷ ys)

unwind-unwind : (xs ys zs : Text) → unwind (unwind xs ys) zs ≡ unwind ys (xs ++ zs)
unwind-unwind [] ys zs = refl
unwind-unwind (x ∷ xs) ys zs = unwind-unwind xs (x ∷ ys) zs

-- The automaton: `read` holds the characters of the current block, the last first.
unfoldable pub feed : Text → Text → List Text × Text
unfolding emit
feed read [] = ([], read)
feed read (c ∷ s) =
    let closed = feed [] s in
    let open_still = feed (c ∷ read) s in
    if nat_beq c 10 && starts_line read
    then (emit (unwind (drop 1 read) []) ++ closed.0, closed.1)
    else open_still

feed-append :
    (read xs ys : Text)
    → feed read (xs ++ ys)
      ≡ ((feed read xs).0 ++ (feed (feed read xs).1 ys).0, (feed (feed read xs).1 ys).1)
unfolding feed
feed-append read [] ys = refl
feed-append read (c ∷ s) ys = elim (Bool-cases (nat_beq c 10 && starts_line read)) [
  | inl ends ↦ rw ends (
      let later = feed-append [] s ys in
      let block = emit (unwind (drop 1 read) []) in
      ap (λ r. (block ++ r.0, r.1)) later
      ∙ ap (λ out. (out, (feed (feed [] s).1 ys).1))
          (sym (append_assoc block (feed [] s).0 (feed (feed [] s).1 ys).0)))
  | inr stays ↦ rw stays (feed-append (c ∷ read) s ys)
]

-- No blank line has its end of line in `read` and its second one at the start of `s`.
abbrev IsApart : Text → Text → Type 0
IsApart read s = (starts_line read && starts_line s) ≡ false

abbrev Splits : Text → Text → Type 0
Splits s read =
    ((cut_block s ≡ none) × (feed read s ≡ ([], unwind s read)))
    ⊎ ((block : Text) × (rest : Text) × (cut_block s ≡ some (block, rest))
        × (length rest < length s)
        × (feed read s ≡ (emit (unwind read block) ++ (feed [] rest).0, (feed [] rest).1)))

feed-stays :
    (c : ℕ) (read s : Text)
    → (nat_beq c 10 && starts_line read) ≡ false
    → feed read (c ∷ s) ≡ feed (c ∷ read) s
unfolding feed
feed-stays c read s h = rw h refl

feed-ends :
    (c : ℕ) (read s : Text)
    → (nat_beq c 10 && starts_line read) ≡ true
    → feed read (c ∷ s) ≡ (emit (unwind (drop 1 read) []) ++ (feed [] s).0, (feed [] s).1)
unfolding feed
feed-ends c read s h = rw h refl

-- The blank line starts at `c`.
here-Splits :
    (c : ℕ) (s read : Text)
    → (nat_beq c 10 && starts_line s) ≡ true
    → (nat_beq c 10 && starts_line read) ≡ false
    → Splits (c ∷ s) read
here-Splits c [] read here apart = ground arith
here-Splits c (d ∷ s) read here apart = inr (
  [],
  s,
  unfold cut_block in rw here refl,
  omega arith,
  feed-stays c read (d ∷ s) apart ∙ feed-ends d (c ∷ read) s (ground arith),
)

-- The blank line is further on, if there is one.
later-Splits :
    (c : ℕ) (s read : Text)
    → (nat_beq c 10 && starts_line s) ≡ false
    → (nat_beq c 10 && starts_line read) ≡ false
    → Splits s (c ∷ read)
    → Splits (c ∷ s) read
later-Splits c s read later apart (inl (nothing, e)) =
    inl (unfold cut_block in rw later (rw (nothing, cut_block) refl), feed-stays c read s apart ∙ e)
later-Splits c s read later apart (inr (block, rest, found, less, e)) = inr (
  c ∷ block,
  rest,
  unfold cut_block in rw later (rw (found, cut_block) refl),
  omega arith,
  feed-stays c read s apart ∙ e,
)

cut_block-Splits : (s read : Text) → IsApart read s → Splits s read
cut_block-Splits [] read apart = unfold cut_block feed in inl (refl, refl)
cut_block-Splits (c ∷ s) read apart = elim (Bool-cases (nat_beq c 10 && starts_line s)) [
  | inl here ↦ here-Splits c s read here (ground arith)
  | inr later ↦
      later-Splits c s read later (ground arith) (cut_block-Splits s (c ∷ read) (ground arith))
]

-- The loop of the decoder, with as much fuel as there are characters.
drain-feed :
    (fuel : ℕ) (buffer : Text)
    → length buffer ≤ fuel
    → drain fuel buffer ≡ ((feed [] buffer).0, unwind (feed [] buffer).1 [])
unfolding drain
drain-feed zero [] enough = unfold feed in refl
drain-feed zero (c ∷ s) enough = absurd (omega arith)
drain-feed (suc fuel) buffer enough = elim (cut_block-Splits buffer [] refl) [
  | inl (nothing, e) ↦
      rw (nothing, drain)
        (rw e (ap (λ b. ([], b)) (sym (unwind-unwind buffer [] [] ∙ append-nil buffer))))
  | inr (block, rest, found, less, e) ↦
      rw (found, drain)
        (rw e (
          let later = drain-feed fuel rest (omega arith) in
          ap (λ r. (emit block ++ r.0, r.1)) later))
]

unwind-append : (xs ys zs : Text) → unwind xs (ys ++ zs) ≡ unwind xs ys ++ zs
unwind-append [] ys zs = refl
unwind-append (x ∷ xs) ys zs = unwind-append xs (x ∷ ys) zs

-- The characters of a block that is still open close no block when they are read again.
abbrev IsOpen : Text → Type 0
IsOpen read = feed [] (unwind read []) ≡ ([], read)

cons-IsOpen :
    (c : ℕ) (read : Text)
    → IsOpen read
    → (nat_beq c 10 && starts_line read) ≡ false
    → IsOpen (c ∷ read)
cons-IsOpen c read h stays =
    ap (feed []) (unwind-append read [] (c ∷ []))
    ∙ feed-append [] (unwind read []) (c ∷ [])
    ∙ ap (λ r. (r.0 ++ (feed r.1 (c ∷ [])).0, (feed r.1 (c ∷ [])).1)) h
    ∙ feed-stays c read [] stays
    ∙ (unfold feed in refl)

feed-IsOpen : (read s : Text) → IsOpen read → IsOpen (feed read s).1
unfolding feed
feed-IsOpen read [] h = h
feed-IsOpen read (c ∷ s) h = elim (Bool-cases (nat_beq c 10 && starts_line read)) [
  | inl ends ↦ rw ends (feed-IsOpen [] s refl)
  | inr stays ↦ rw stays (feed-IsOpen (c ∷ read) s (cons-IsOpen c read h stays))
]

push-feed :
    (read chunk : Text)
    → IsOpen read
    → push (unwind read []) chunk ≡ ((feed read chunk).0, unwind (feed read chunk).1 [])
unfolding push
push-feed read chunk h =
    drain-feed (length (unwind read [] ++ chunk)) (unwind read [] ++ chunk) (omega arith)
    ∙ ap (λ r. (r.0, unwind r.1 []))
        (feed-append [] (unwind read []) chunk
          ∙ ap (λ r. (r.0 ++ (feed r.1 chunk).0, (feed r.1 chunk).1)) h)

abbrev pub joined : List Text → Text
joined [] = []
joined (chunk ∷ chunks) = chunk ++ joined chunks

push_all-open :
    (read : Text) (chunks : List Text)
    → IsOpen read
    → push_all (unwind read []) chunks
      ≡ ((feed read (joined chunks)).0, unwind (feed read (joined chunks)).1 [])
push_all-open read [] h = unfold feed in refl
push_all-open read (chunk ∷ chunks) h =
    let next = (feed read chunk).1 in
    ap (λ r. (r.0 ++ (push_all r.1 chunks).0, (push_all r.1 chunks).1)) (push-feed read chunk h)
    ∙ ap (λ r. ((feed read chunk).0 ++ r.0, r.1))
        (push_all-open next chunks (feed-IsOpen read chunk h))
    ∙ ap (λ r. (r.0, unwind r.1 [])) (sym (feed-append read chunk (joined chunks)))

-- A stream of texts gives the blocks that the automaton reads in the whole of it, one character at a
-- time, and leaves the block that is still open; where the stream is cut into chunks makes no
-- difference.
pub push_all-feed :
    (chunks : List Text)
    → push_all [] chunks ≡ ((feed [] (joined chunks)).0, unwind (feed [] (joined chunks)).1 [])
push_all-feed chunks = push_all-open [] chunks (unfold feed in refl)

-- Two ways to cut the same stream give the same blocks and the same rest.
pub push_all-joined :
    (chunks others : List Text)
    → joined chunks ≡ joined others
    → push_all [] chunks ≡ push_all [] others
push_all-joined chunks others same =
    push_all-feed chunks
    ∙ ap (λ s. ((feed [] s).0, unwind (feed [] s).1 [])) same
    ∙ sym (push_all-feed others)
