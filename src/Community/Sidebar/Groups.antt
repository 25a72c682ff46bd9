-- ===== src/Community/Sidebar/Groups.antt =====
-- Which layouts a body of apps/community/sidebar.mjs can have.
use mathlib.Core.Option.{some-injective}
use open_claw_bot.Common.{
  ℕ, ◌≤◌, ◌≡◌, refl, sym, ap, ◌∙◌, subst, inl, inr, Bool, true, false, not, ◌&&◌, Option, none,
  some, List, [], ◌∷◌, length, contains, is_empty, if◌then◌else◌, leb, ltb, arith, Bool-cases,
  Option-cases,
}
use open_claw_bot.Common.Ints.{ℤ, pos, negsuc}
use open_claw_bot.Common.Texts.{Text, text_eq, trim}
use open_claw_bot.Community.Sidebar.{
  Group, Layout, RawGroup, Body, is_group_id, check_group, check_groups, check_width, check_list,
  check_body,
}

-- Groups that a body may have, where `ids` are those of the groups before them.
abbrev pub IsProper : List Text → List Group → Type 0
IsProper ids [] = Unit
IsProper ids (g ∷ gs) =
    (is_group_id g.id ≡ true)
    × (contains ids g.id ≡ false)
    × (is_empty g.name ≡ false)
    × (length g.name ≤ 40)
    × IsProper (g.id ∷ ids) gs

leb_le : (n m : ℕ) → leb n m ≡ true → n ≤ m
leb_le n m h = ground arith

four_tests :
    (a b c d : Bool)
    → (a && not b && not c && d) ≡ true
    → (a ≡ true) × (b ≡ false) × (c ≡ false) × (d ≡ true)
four_tests true false false true h = (refl, refl, refl, refl)
four_tests true false false false h = cc
four_tests true false true d h = ground arith
four_tests true true c d h = ground arith
four_tests false b c d h = ground arith

check_group-proper :
    (ids : List Text) (id name : Option Text) (collapsed : Option Bool) (g : Group)
    → check_group ids (record { id = id; name = name; collapsed = collapsed }) ≡ some g
    → (is_group_id g.id ≡ true)
      × (contains ids g.id ≡ false)
      × (is_empty g.name ≡ false)
      × (length g.name ≤ 40)
unfolding check_group
check_group-proper ids none name collapsed g h = cc
check_group-proper ids (some id) none collapsed g h = cc
check_group-proper ids (some id) (some name) none g h = cc
check_group-proper ids (some id) (some name) (some collapsed) g h =
    let test =
      is_group_id id
      && not (contains ids id)
      && not (is_empty (trim name))
      && leb (length (trim name)) 40 in
    let made : Group = record { id = id; name = trim name; collapsed = collapsed } in
    elim (Bool-cases test) [
      | inr bad ↦
          (let none_left : none ≡ some g = sym (ap (λ b. if b then some made else none) bad) ∙ h in
            cc)
      | inl good ↦
          let same : some made ≡ some g = sym (ap (λ b. if b then some made else none) good) ∙ h in
          subst
            (λ x.
              (is_group_id x.id ≡ true)
              × (contains ids x.id ≡ false)
              × (is_empty x.name ≡ false)
              × (length x.name ≤ 40))
            (some-injective _ _ same)
            (let t = four_tests _ _ _ _ good in (t.0, t.1, t.2, leb_le (length (trim name)) 40 t.3))
    ]

abbrev combine : Option Group → (Group → Option (List Group)) → Option (List Group)
combine none rest = none
combine (some first) rest = elim (rest first) [ none ↦ none | some gs ↦ some (first ∷ gs) ]

combine-cases :
    (o : Option Group) (rest : Group → Option (List Group)) (out : List Group)
    → combine o rest ≡ some out
    → (first : Group) × (gs : List Group) × (o ≡ some first)
      × (rest first ≡ some gs)
      × (first ∷ gs ≡ out)
combine-cases none rest out h = cc
combine-cases (some first) rest out h = elim (Option-cases (rest first)) [
  | inl bad ↦ (let none_left : none ≡ some out = sym (rw (bad, combine) refl) ∙ h in cc)
  | inr (gs, fine) ↦
      let made : some (first ∷ gs) ≡ some out = sym (rw (fine, combine) refl) ∙ h in
      (first, gs, refl, fine, some-injective _ _ made)
]

check_groups-combine :
    (ids : List Text) (g : RawGroup) (gs : List RawGroup)
    → check_groups ids (g ∷ gs) ≡ combine (check_group ids g) (λ x. check_groups (x.id ∷ ids) gs)
unfolding check_groups
check_groups-combine ids g gs = elim (Option-cases (check_group ids g)) [
  | inl bad ↦ rw (bad, check_groups, combine) refl
  | inr (first, good) ↦ rw (good, check_groups, combine) refl
]

check_groups-IsProper :
    (ids : List Text) (gs : List RawGroup) (out : List Group)
    → check_groups ids gs ≡ some out
    → IsProper ids out
unfolding check_groups
check_groups-IsProper ids [] out h = subst (IsProper ids) (some-injective _ _ h) tt
check_groups-IsProper ids (g ∷ gs) out h =
    let (first, rest, good, fine, made) =
      combine-cases (check_group ids g) (λ x. check_groups (x.id ∷ ids) gs) out
        (sym (check_groups-combine ids g gs) ∙ h) in
    let proper = check_group-proper ids g.id g.name g.collapsed first good in
    subst (IsProper ids) made
      (proper.0, proper.1, proper.2, proper.3, check_groups-IsProper (first.id ∷ ids) gs rest fine)

-- What a layout may be.
pub record IsLayout (l : Layout) : Type 0 where
  pub wide : 200 ≤ l.width
  pub narrow : l.width ≤ 420
  pub proper : IsProper [] l.groups

check_list-IsProper :
    (o : Option (List RawGroup)) (out : List Group) → check_list o ≡ some out → IsProper [] out
check_list-IsProper none out h = cc
check_list-IsProper (some raw) out h = elim (Bool-cases (ltb 20 (length raw))) [
  | inl long ↦
      (let none_left : none ≡ some out =
          sym (ap (λ b. if b then none else check_groups [] raw) long) ∙ h in
        cc)
  | inr short ↦
      check_groups-IsProper [] raw out
        (sym (ap (λ b. if b then none else check_groups [] raw) short) ∙ h)
]

check_width-bounds : (o : Option ℤ) (w : ℕ) → check_width o ≡ some w → (200 ≤ w) × (w ≤ 420)
unfolding check_width
check_width-bounds none w h = cc
check_width-bounds (some (negsuc n)) w h = cc
check_width-bounds (some (pos n)) w h = (ground arith, ground arith)

pub check_body-IsLayout : (body : Body) (l : Layout) → check_body body ≡ some l → IsLayout l
unfolding check_body
check_body-IsLayout body l h = elim (Option-cases (check_width body.width)) [
  | inl bad ↦ (let none_left : none ≡ some l = sym (rw (bad, check_body) refl) ∙ h in cc)
  | inr (w, wide) ↦ elim (Option-cases (check_list body.groups)) [
    | inl bad ↦
        (let none_left : none ≡ some l =
            sym (rw (wide, check_body) (rw (bad, check_body) refl)) ∙ h in
          cc)
    | inr (gs, fine) ↦
        let made : some (record { width = w; groups = gs }) ≡ some l =
          sym (rw (wide, check_body) (rw (fine, check_body) refl)) ∙ h in
        let bounds = check_width-bounds body.width w wide in
        subst IsLayout (some-injective _ _ made) (record {
          wide = bounds.0;
          narrow = bounds.1;
          proper = check_list-IsProper body.groups gs fine;
        })
  ]
]
