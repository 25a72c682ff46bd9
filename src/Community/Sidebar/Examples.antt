-- ===== src/Community/Sidebar/Examples.antt =====
-- A user of apps/community/sidebar.mjs who removes a group that a room is in.
use open_claw_bot.Common.{◌≡◌, refl, false, none, some, [], ◌∷◌}
use open_claw_bot.Common.Ints.{pos}
use open_claw_bot.Common.Maps.{Dict, get, set}
use open_claw_bot.Common.Texts.{
  Text, units, text_eq, text_beq, trim, trim_start, is_space, starts_with,
}
use open_claw_bot.Community.Sidebar.{
  Setting, sidebar, room, Body, has_hex_shape, is_group_id, read, check_group, check_groups,
  check_width, check_body, keep_group, clean_rooms, write, choose_group,
}

abbrev work : Text
work = units "0a0b0c0d-1111-2222-3333-444444444444"

abbrev home : Text
home = units "ffffffff-1111-2222-3333-444444444444"

abbrev settings : Dict Text Setting
settings =
    (units "room-ui:u:r1", room (record { group_id = some home; others = [] }))
    ∷ (units "room-ui:u:r2", room (record { group_id = some work; others = [] }))
    ∷ (units "room-ui:v:r1", room (record { group_id = some home; others = [] }))
    ∷ []

abbrev body : Body
body = record {
  width = some (pos 300);
  groups =
      some (record { id = some work; name = some (units " Work "); collapsed = some false } ∷ []);
}

write_runs :
    (write (units "u") body settings).1
    ≡ (units "room-ui:u:r1", room (record { group_id = none; others = [] }))
      ∷ (units "room-ui:u:r2", room (record { group_id = some work; others = [] }))
      ∷ (units "room-ui:v:r1", room (record { group_id = some home; others = [] }))
      ∷ (
        units "sidebar:u",
        sidebar (record {
          width = 300;
          groups = record { id = work; name = units "Work"; collapsed = false } ∷ [];
        }),
      )
      ∷ []
unfolding write check_body check_width check_groups check_group is_group_id has_hex_shape keep_group
    clean_rooms set trim trim_start is_space starts_with text_beq
write_runs = refl

-- A group that is not the user's cannot be chosen.
group_refused : choose_group settings (units "u") (some home) ≡ none
unfolding choose_group read get text_beq
group_refused = refl
