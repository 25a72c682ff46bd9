-- ===== src/Community/Providers/Attempts.antt =====
-- The order in which apps/community/providers.mjs tries the keys of a turn.
use mathlib.Core.List.Perm
use mathlib.Core.List.{perm_middle}
use open_claw_bot.Common.{
  ℕ, ◌+◌, ◌%◌, ◌<◌, ◌≡◌, refl, ap, ◌∙◌, ◌⊎◌, inl, inr, Bool, false, not, ◌&&◌, ◌||◌, Option, none,
  some, List, [], ◌∷◌, ◌++◌, Perm, length, take, drop, get_elem?, any, contains, is_empty, ◌==◌,
  arith, Bool-cases, rotate-perm, take-append-drop, head-rotate,
}
use open_claw_bot.Common.Texts.{Text, text_eq, text_beq_iff}
use open_claw_bot.Community.Providers.{
  Candidate, Pool, split_first, attempts_from, candidates, choose,
}

-- A candidate of this provider name.
abbrev pub names : Text → Candidate → Bool
names n c = c.provider.name == n

-- No provider name occurs twice.
abbrev pub IsUnrepeated : List Candidate → Type 0
IsUnrepeated [] = Unit
IsUnrepeated (c ∷ cs) = (any (names c.provider.name) cs ≡ false) × IsUnrepeated cs

split_first-perm :
    (seen : List Text) (cs : List Candidate)
    → Perm ((split_first seen cs).0 ++ (split_first seen cs).1) cs
unfolding split_first
split_first-perm seen [] = Perm.nil
split_first-perm seen (c ∷ cs) =
    let rest = split_first-perm (c.provider.name ∷ seen) cs in
    elim (Bool-cases (contains seen c.provider.name)) [
      | inl again ↦ rw again (
          Perm.trans
            (perm_middle (split_first (c.provider.name ∷ seen) cs).0
              (split_first (c.provider.name ∷ seen) cs).1)
            (Perm.cons c rest))
      | inr fresh ↦ rw fresh (Perm.cons c rest)
    ]

-- A name is among the first ones if it is there and was not seen before.
split_first-names :
    (seen : List Text) (cs : List Candidate) (n : Text)
    → any (names n) (split_first seen cs).0 ≡ (not (contains seen n) && any (names n) cs)
unfolding split_first
split_first-names seen [] n = ground arith
split_first-names seen (c ∷ cs) n =
    ground (arith, split_first-names (c.provider.name ∷ seen) cs n, text_beq_iff c.provider.name n)

split_first-IsUnrepeated :
    (seen : List Text) (cs : List Candidate) → IsUnrepeated (split_first seen cs).0
unfolding split_first
split_first-IsUnrepeated seen [] = tt
split_first-IsUnrepeated seen (c ∷ cs) =
    let rest = split_first-IsUnrepeated (c.provider.name ∷ seen) cs in
    elim (Bool-cases (contains seen c.provider.name)) [
      | inl again ↦ rw again rest
      | inr fresh ↦ rw fresh (
        split_first-names (c.provider.name ∷ seen) cs c.provider.name
            ∙ ground (arith, text_beq_iff c.provider.name c.provider.name),
        rest,
      )
    ]

-- What the order of the attempts has to do with the candidates and the place of the first one: it
-- starts there, it is made of all candidates, and it begins with one key of each provider.
pub record IsFair (start : ℕ) (cs attempts : List Candidate) : Type 0 where
  pub same : Perm attempts cs
  pub leads : get_elem? attempts 0 ≡ get_elem? cs start
  pub keys_spread :
      (first : List Candidate) × (rest : List Candidate) × (attempts ≡ first ++ rest)
      × IsUnrepeated first
      × ((n : Text) → any (names n) first ≡ any (names n) cs)

any-append :
    (p : Candidate → Bool) (xs ys : List Candidate) → any p (xs ++ ys) ≡ (any p xs || any p ys)
any-append p [] ys = refl
any-append p (x ∷ xs) ys = ground (arith, any-append p xs ys)

any-rotate :
    (p : Candidate → Bool) (k : ℕ) (xs : List Candidate) → any p (drop k xs ++ take k xs) ≡ any p xs
any-rotate p k xs =
    let whole : any p (take k xs ++ drop k xs) ≡ any p xs = ap (any p) (take-append-drop k xs) in
    ground
      (arith, whole, any-append p (drop k xs) (take k xs), any-append p (take k xs) (drop k xs))

split_first-leads :
    (cs : List Candidate)
    → get_elem? ((split_first [] cs).0 ++ (split_first [] cs).1) 0 ≡ get_elem? cs 0
unfolding split_first
split_first-leads [] = refl
split_first-leads (c ∷ cs) = refl

get_elem?-zero :
    (start : ℕ) (cs : List Candidate)
    → start < length cs
    → get_elem? (drop start cs ++ take start cs) 0 ≡ get_elem? cs start
get_elem?-zero start cs h = head-rotate start cs (take start cs) h

attempts_from-IsFair :
    (start : ℕ) (cs : List Candidate) → start < length cs → IsFair start cs (attempts_from start cs)
unfolding attempts_from
attempts_from-IsFair start cs h =
    let turned = drop start cs ++ take start cs in
    record {
      same = Perm.trans (split_first-perm [] turned) (rotate-perm start cs);
      leads = split_first-leads turned ∙ get_elem?-zero start cs h;
      keys_spread = (
        (split_first [] turned).0,
        (split_first [] turned).1,
        refl,
        split_first-IsUnrepeated [] turned,
        λ n. split_first-names [] turned n ∙ any-rotate (names n) start cs,
      );
    }

candidates-cases : (cs : List Candidate) → (cs ≡ []) ⊎ ((is_empty cs ≡ false) × (0 < length cs))
candidates-cases [] = inl refl
candidates-cases (c ∷ cs) = inr (refl, omega arith)

-- A choice finds nothing and leaves the pool alone only if there is no candidate. Otherwise all
-- candidates are tried, from the one that the cursor points at and one key of each provider first,
-- and the cursor moves on by one.
pub choose-IsFair :
    (s : Pool) (now : ℕ) (model_id effort : Option Text)
    → let cs = candidates s now model_id effort in
      ((cs ≡ []) × (choose s now model_id effort ≡ (none, s)))
      ⊎ ((attempts : List Candidate) × (choose s now model_id effort
            ≡ (some attempts, record s { cursor = s.cursor + 1 }))
          × IsFair (s.cursor % length cs) cs attempts)
unfolding choose
choose-IsFair s now model_id effort = elim (candidates-cases (candidates s now model_id effort)) [
  | inl nobody ↦ inl (nobody, rw (nobody, choose) refl)
  | inr (somebody, more) ↦ inr (
    attempts_from (s.cursor % length (candidates s now model_id effort))
        (candidates s now model_id effort),
    rw (somebody, choose) refl,
    attempts_from-IsFair _ (candidates s now model_id effort) (omega arith),
  )
]
