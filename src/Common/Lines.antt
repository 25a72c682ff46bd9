-- ===== src/Common/Lines.antt =====
-- Texts of lines: `split("\n")` and `join("\n")`.
use Prim.Native.Nat.{ℕ}
use mathlib.Core.Path.{◌≡◌, refl, sym, ap, ◌∙◌}
use mathlib.Core.Logic.{inl, inr}
use mathlib.Core.Bool.{true, false}
use mathlib.Core.List.{List, [], ◌∷◌, ◌++◌, append_assoc}
use open_claw_bot.Common.Tests.{if◌then◌else◌, ◌==◌, nat_eq, Bool-cases}
use open_claw_bot.Common.Lists.{any, All}
use open_claw_bot.Common.Texts.{Text}

-- `s.split("\n")`.
unfoldable pub onto_first : ℕ → List Text → List Text
onto_first c [] = (c ∷ []) ∷ []
onto_first c (l ∷ ls) = (c ∷ l) ∷ ls

unfoldable pub split_lines : Text → List Text
unfolding onto_first
split_lines [] = [] ∷ []
split_lines (c ∷ s) = let rest = split_lines s in if c == 10 then [] ∷ rest else onto_first c rest

-- `lines.join("\n")`.
unfoldable pub join_lines : List Text → Text
join_lines [] = []
join_lines (l ∷ []) = l
join_lines (l ∷ m ∷ ls) = l ++ (10 ∷ join_lines (m ∷ ls))

-- A text that ends each of the lines `ls`.
abbrev pub unlines : List Text → Text
unlines [] = []
unlines (l ∷ ls) = l ++ (10 ∷ unlines ls)

pub unlines-append : (xs ys : List Text) → unlines (xs ++ ys) ≡ unlines xs ++ unlines ys
unlines-append [] ys = refl
unlines-append (x ∷ xs) ys =
    rw (unlines-append xs ys) (sym (append_assoc x (10 ∷ unlines xs) (unlines ys)))

abbrev pub IsLine : Text → Type 0
IsLine l = any (λ c. c == 10) l ≡ false

pub split-line : (l s : Text) → IsLine l → split_lines (l ++ (10 ∷ s)) ≡ l ∷ split_lines s
unfolding split_lines onto_first
split-line [] s h = refl
split-line (c ∷ l) s h = elim (Bool-cases (c == 10)) [
  | inl end ↦ (let bad : true ≡ false = rw end at h in cc)
  | inr inside ↦ rw (inside, split-line l s (rw inside at h)) refl
]

pub split-unlines : (ls : List Text) → All IsLine ls → split_lines (unlines ls) ≡ ls ++ ([] ∷ [])
unfolding split_lines
split-unlines [] h = refl
split-unlines (l ∷ ls) (first, others) =
    split-line l (unlines ls) first ∙ ap (λ xs. l ∷ xs) (split-unlines ls others)

-- A non-empty list of joined lines, closed by one more line end.
pub join-unlines : (l : Text) (ls : List Text) → join_lines (l ∷ ls) ++ (10 ∷ []) ≡ unlines (l ∷ ls)
unfolding join_lines
join-unlines l [] = refl
join-unlines l (m ∷ ls) =
    append_assoc l (10 ∷ join_lines (m ∷ ls)) (10 ∷ [])
    ∙ ap (λ t. l ++ (10 ∷ t)) (join-unlines m ls)

pub split-lone : (l : Text) → IsLine l → split_lines l ≡ l ∷ []
unfolding split_lines
split-lone [] h = refl
split-lone (c ∷ l) h = elim (Bool-cases (c == 10)) [
  | inl end ↦ (let bad : true ≡ false = rw end at h in cc)
  | inr inside ↦ rw (inside, split-lone l (rw inside at h)) refl
]
