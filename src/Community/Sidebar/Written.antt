-- ===== src/Community/Sidebar/Written.antt =====
-- What a write of apps/community/sidebar.mjs leaves.
use mathlib.Core.Option.{some-injective}
use open_claw_bot.Common.{
  ◌≡◌, refl, sym, ap, ◌∙◌, subst, inl, inr, Bool, true, false, Option, none, some, List, [], ◌∷◌,
  is_empty, if◌then◌else◌, ◌==◌, arith, Bool-cases,
}
use open_claw_bot.Common.Maps.{Dict, get, set, get-set, ==_refl}
use open_claw_bot.Common.Texts.{Text, text_eq, text_beq_iff, starts_with}
use open_claw_bot.Community.Sidebar.Groups.{IsLayout}
use open_claw_bot.Community.Sidebar.{
  Group, Layout, Setting, sidebar, room, unrelated, sidebar_key, room_prefix, read, has_group,
  keep_group, clean_setting, clean_rooms,
}

map_setting : (Setting → Setting) → Option Setting → Option Setting
map_setting f none = none
map_setting f (some v) = some (f v)

get-clean_rooms :
    (prefix : Text) (groups : List Group) (m : Dict Text Setting) (k : Text)
    → get (clean_rooms prefix groups m) k
      ≡ (if starts_with k prefix then map_setting (clean_setting groups) (get m k) else get m k)
unfolding get clean_rooms map_setting
get-clean_rooms prefix groups [] k = ground arith
get-clean_rooms prefix groups ((j, v) ∷ m) k = elim (Bool-cases (starts_with j prefix)) [
  | inl inside ↦ elim (Bool-cases (j == k)) [
    | inl same ↦ rw inside (rw same (rw (move inside ((text_beq_iff j k).0 same)) refl))
    | inr different ↦ rw inside (rw different (get-clean_rooms prefix groups m k))
  ]
  | inr outside ↦ elim (Bool-cases (j == k)) [
    | inl same ↦ rw outside (rw same (rw (move outside ((text_beq_iff j k).0 same)) refl))
    | inr different ↦ rw outside (rw different (get-clean_rooms prefix groups m k))
  ]
]
  where
    move : {b : Bool} → starts_with j prefix ≡ b → j ≡ k → starts_with k prefix ≡ b
    move e same = ap (λ t. starts_with t prefix) (sym same) ∙ e

-- A room setting names no group, or the empty one, or one of these.
abbrev pub IsGrouped : List Group → Option Setting → Type 0
IsGrouped groups none = Unit
IsGrouped groups (some (sidebar l)) = Unit
IsGrouped groups (some (unrelated s)) = Unit
IsGrouped groups (some (room p)) =
    (id : Text) → p.group_id ≡ some id → is_empty id ≡ false → has_group groups id ≡ true

keep_group-kept :
    (groups : List Group) (o : Option Text) (id : Text)
    → keep_group groups o ≡ some id
    → is_empty id ≡ false
    → has_group groups id ≡ true
unfolding keep_group
keep_group-kept groups none id h full = cc
keep_group-kept groups (some []) id h full = (let same : [] ≡ id = some-injective _ _ h in cc)
keep_group-kept groups (some (c ∷ s)) id h full = elim (Bool-cases (has_group groups (c ∷ s))) [
  | inl there ↦
      let same : some (c ∷ s) ≡ some id =
        sym (ap (λ b. if b then some (c ∷ s) else none) there) ∙ h in
      subst (λ t. has_group groups t ≡ true) (some-injective _ _ same) there
  | inr gone ↦
      (let none_left : none ≡ some id = sym (ap (λ b. if b then some (c ∷ s) else none) gone) ∙ h in
        cc)
]

clean-IsGrouped :
    (groups : List Group) (o : Option Setting)
    → IsGrouped groups (map_setting (clean_setting groups) o)
unfolding map_setting
clean-IsGrouped groups none = tt
clean-IsGrouped groups (some (sidebar l)) = tt
clean-IsGrouped groups (some (unrelated s)) = tt
clean-IsGrouped groups (some (room p)) = λ id. keep_group-kept groups p.group_id id

-- What a write leaves in the settings of its user and of the others.
pub record IsWritten (user : Text) (l : Layout) (settings settings' : Dict Text Setting)
    : Type 0 where
  pub layout : IsLayout l
  pub reads : read settings' user ≡ l
  pub rooms :
      (key : Text)
      → starts_with key (room_prefix user) ≡ true
      → IsGrouped l.groups (get settings' key)
  pub others :
      (key : Text)
      → starts_with key (room_prefix user) ≡ false
      → (sidebar_key user == key) ≡ false
      → get settings' key ≡ get settings key

written :
    (user : Text) (l : Layout) (settings : Dict Text Setting)
    → IsLayout l
    → IsWritten user l settings
        (set (clean_rooms (room_prefix user) l.groups settings) (sidebar_key user) (sidebar l))
written user l settings ok =
    let cleaned = clean_rooms (room_prefix user) l.groups settings in
    record {
      layout = ok;
      reads =
          unfold read in
          rw (get-set cleaned (sidebar_key user) (sidebar_key user) (sidebar l))
            (rw (==_refl (sidebar_key user)) refl);
      rooms = λ key inside. elim (Bool-cases (sidebar_key user == key)) [
        | inl same ↦ rw (get-set cleaned (sidebar_key user) key (sidebar l)) (rw same tt)
        | inr different ↦ rw (get-set cleaned (sidebar_key user) key (sidebar l)) (
            rw different (
              rw (get-clean_rooms (room_prefix user) l.groups settings key)
                (rw inside (clean-IsGrouped l.groups (get settings key)))))
      ];
      others = λ key outside different. rw (get-set cleaned (sidebar_key user) key (sidebar l)) (
          rw different
            (rw (get-clean_rooms (room_prefix user) l.groups settings key) (rw outside refl)));
    }
