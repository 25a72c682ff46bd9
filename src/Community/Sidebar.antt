-- ===== src/Community/Sidebar.antt =====
-- apps/community/sidebar.mjs: the groups of a user's sidebar. The settings table is a map from keys
-- to values that are parsed already; `none` where a value has the wrong type.
pub mod Groups
pub mod Written
mod Examples
use open_claw_bot.Common.{
  ℕ, ◌+◌, ◌++◌, Bool, true, false, not, ◌&&◌, ◌||◌, Option, none, some, List, [], ◌∷◌, length, any,
  contains, is_empty, if◌then◌else◌, ◌==◌, nat_beq, leb, ltb,
}
use open_claw_bot.Common.Ints.{ℤ, pos, negsuc}
use open_claw_bot.Common.Maps.{Dict, get, set}
use open_claw_bot.Common.Texts.{Text, units, text_eq, trim, starts_with}

pub record Group : Type 0 where
  pub id : Text
  pub name : Text
  pub collapsed : Bool

pub record Layout : Type 0 where
  pub width : ℕ
  pub groups : List Group

-- The preference of a user for a room: its group, and the fields that this file only copies.
pub record Preference : Type 0 where
  pub group_id : Option Text
  pub others : Text

pub data Setting : Type 0 where
  sidebar : Layout → Setting
  room : Preference → Setting
  unrelated : Text → Setting

pub record RawGroup : Type 0 where
  pub id : Option Text
  pub name : Option Text
  pub collapsed : Option Bool

pub record Body : Type 0 where
  pub width : Option ℤ
  pub groups : Option (List RawGroup)

abbrev pub default_layout : Layout
default_layout = record { width = 280; groups = [] }

abbrev pub sidebar_key : Text → Text
sidebar_key user = units "sidebar:" ++ user

abbrev pub room_prefix : Text → Text
room_prefix user = units "room-ui:" ++ user ++ units ":"

-- The expression for an id: `pattern` with `0` for a digit or a letter from a to f.
abbrev is_hex : ℕ → Bool
is_hex c = (leb b'0' c && leb c b'9') || (leb b'a' c && leb c b'f')

unfoldable pub has_hex_shape : Text → Text → Bool
has_hex_shape [] [] = true
has_hex_shape [] (c ∷ s) = false
has_hex_shape (p ∷ ps) [] = false
has_hex_shape (p ∷ ps) (c ∷ s) =
    (if nat_beq p b'0' then is_hex c else nat_beq c p) && has_hex_shape ps s

unfoldable pub is_group_id : Text → Bool
unfolding has_hex_shape
is_group_id s = has_hex_shape (units "00000000-0000-0000-0000-000000000000") s

abbrev read_setting : Option Setting → Layout
read_setting none = default_layout
read_setting (some (sidebar l)) = l
read_setting (some (room p)) = default_layout
read_setting (some (unrelated s)) = default_layout

unfoldable pub read : Dict Text Setting → Text → Layout
read settings user = read_setting (get settings (sidebar_key user))

-- One group of the body, where `ids` are those of the groups before it.
abbrev check_fields : List Text → Option Text → Option Text → Option Bool → Option Group
check_fields ids none name collapsed = none
check_fields ids (some id) none collapsed = none
check_fields ids (some id) (some name) none = none
check_fields ids (some id) (some name) (some collapsed) =
    if is_group_id id
      && not (contains ids id)
      && not (is_empty (trim name))
      && leb (length (trim name)) 40
    then some (record { id = id; name = trim name; collapsed = collapsed })
    else none

unfoldable pub check_group : List Text → RawGroup → Option Group
unfolding is_group_id trim
check_group ids g = check_fields ids g.id g.name g.collapsed

unfoldable pub check_groups : List Text → List RawGroup → Option (List Group)
unfolding check_group
check_groups ids [] = some []
check_groups ids (g ∷ gs) = elim (check_group ids g) [
  | none ↦ none
  | some first ↦ elim (check_groups (first.id ∷ ids) gs) [
    | none ↦ none
    | some rest ↦ some (first ∷ rest)
  ]
]

unfoldable pub check_width : Option ℤ → Option ℕ
check_width none = none
check_width (some (negsuc n)) = none
check_width (some (pos n)) = if leb 200 n && leb n 420 then some n else none

abbrev pub check_list : Option (List RawGroup) → Option (List Group)
check_list none = none
check_list (some gs) = if ltb 20 (length gs) then none else check_groups [] gs

-- `some` layout, or the error of a body that is refused.
unfoldable pub check_body : Body → Option Layout
unfolding check_width check_groups
check_body body = elim (check_width body.width) [
  | none ↦ none
  | some width ↦ elim (check_list body.groups) [
    | none ↦ none
    | some groups ↦ some (record { width = width; groups = groups })
  ]
]

abbrev pub has_group : List Group → Text → Bool
has_group groups id = any (λ g. g.id == id) groups

-- A preference loses a group that is gone.
unfoldable pub keep_group : List Group → Option Text → Option Text
keep_group groups none = none
keep_group groups (some id) =
    if is_empty id then some id else if has_group groups id then some id else none

abbrev pub clean_setting : List Group → Setting → Setting
clean_setting groups (sidebar l) = sidebar l
clean_setting groups (room p) = room (record p { group_id = keep_group groups p.group_id })
clean_setting groups (unrelated s) = unrelated s

unfoldable pub clean_rooms : Text → List Group → Dict Text Setting → Dict Text Setting
unfolding keep_group starts_with
clean_rooms prefix groups [] = []
clean_rooms prefix groups ((key, v) ∷ rest) =
    let later = clean_rooms prefix groups rest in
    if starts_with key prefix then (key, clean_setting groups v) ∷ later else (key, v) ∷ later

-- `write`: all of it or nothing.
unfoldable pub write : Text → Body → Dict Text Setting → Option Layout × Dict Text Setting
unfolding check_body clean_rooms
write user body settings = elim (check_body body) [
  | none ↦ (none, settings)
  | some layout ↦ (
    some layout,
    set (clean_rooms (room_prefix user) layout.groups settings) (sidebar_key user) (sidebar layout),
  )
]

-- `group`: no group, a group of the user, or the error.
unfoldable pub choose_group : Dict Text Setting → Text → Option Text → Option (Option Text)
unfolding read
choose_group settings user none = some none
choose_group settings user (some id) =
    if has_group (read settings user).groups id then some (some id) else none
