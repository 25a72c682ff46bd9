-- ===== src/Transport/Sse/Blocks.antt =====
-- Blocks of a stream of packages/transport/src/sse.ts, each in front of a blank line.
use open_claw_bot.Common.{
  ℕ, zero, suc, ◌≤◌, ◌≡◌, refl, inl, inr, true, false, some, List, [], ◌∷◌, ◌++◌, length, nat_eq,
  nat_beq, All, arith, length-append, Bool-cases,
}
use open_claw_bot.Common.Texts.{Text, text_eq}
use open_claw_bot.Common.Lines.{IsLine}
use open_claw_bot.Transport.Sse.{cut_block, emit, drain}

-- The block in front of a blank line.
cut-block :
    (block rest : Text) → IsLine block → cut_block (block ++ (10 ∷ 10 ∷ rest)) ≡ some (block, rest)
unfolding cut_block
cut-block [] rest h = refl
cut-block (c ∷ block) rest h = elim (Bool-cases (nat_beq c 10)) [
  | inl end ↦ (let bad : true ≡ false = rw end at h in cc)
  | inr inside ↦ rw (inside, cut-block block rest (rw inside at h)) refl
]

-- A text of blocks, each in front of a blank line.
abbrev pub closed_blocks : List Text → Text
closed_blocks [] = []
closed_blocks (b ∷ bs) = b ++ (10 ∷ 10 ∷ closed_blocks bs)

abbrev pub emit_all : List Text → List Text
emit_all [] = []
emit_all (b ∷ bs) = emit b ++ emit_all bs

pub drain-blocks :
    (fuel : ℕ) (bs : List Text)
    → All IsLine bs
    → length (closed_blocks bs) ≤ fuel
    → drain fuel (closed_blocks bs) ≡ (emit_all bs, [])
unfolding drain
drain-blocks zero [] h enough = refl
drain-blocks (suc fuel) [] h enough = unfold cut_block in refl
drain-blocks zero (b ∷ bs) h enough =
    absurd (omega (arith, length-append b (10 ∷ 10 ∷ closed_blocks bs)))
drain-blocks (suc fuel) (b ∷ bs) (first, others) enough =
    rw (cut-block b (closed_blocks bs) first, drain)
      (rw
        (drain-blocks fuel bs others (omega (arith, length-append b (10 ∷ 10 ∷ closed_blocks bs))))
        refl)
