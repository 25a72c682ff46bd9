-- ===== src/Messaging/GroupChat/Examples.antt =====
-- A room of packages/messaging/src/group-chat.ts with three members.
use open_claw_bot.Common.{◌==◌, ◌&&◌, ◌≡◌, refl, true, List, [], ◌∷◌, any, contains}
use open_claw_bot.Common.Texts.{
  Text, units, text_eq, text_beq, trim, trim_start, is_space, starts_with,
}
use open_claw_bot.Messaging.GroupChat.{
  Member, Message, member, is_word_char, is_regex_word, mention_from, has_mention_at, everyone_from,
  strip_spaces, first_word, add_handle, mention_handles, is_mentioned, mentioned_ids,
  parse_group_mentions,
}
use open_claw_bot.Messaging.GroupChat.Mentions.{parse_group_mentions-calls, IsDistinct}

abbrev ids : List Text
ids = units "a" ∷ units "b" ∷ units "c" ∷ []

abbrev members : List Member
members =
    record { id = units "a"; name = units "ann lee"; description = [] }
    ∷ record { id = units "b"; name = units "bob"; description = [] }
    ∷ record { id = units "c"; name = units "carl"; description = [] }
    ∷ []

abbrev history : List Message
history =
    record { speaker = member (units "b") (units "bob"); content = units "hi" }
    ∷ record { speaker = member (units "a") (units "ann lee"); content = units "@bob and @annlee" }
    ∷ []

parse_group_mentions-calls_example :
    let called = (parse_group_mentions (λ s. s) (units "@bob and @annlee") members).member_ids in
    (contains called (units "b")
      ≡ any (λ m. m.id == units "b" && is_mentioned (λ s. s) (units "@bob and @annlee") m) members)
    × IsDistinct called
parse_group_mentions-calls_example =
    parse_group_mentions-calls (λ s. s) (units "@bob and @annlee") members (units "b")

-- Handles are whole words: `@bobby` is not Bob, and `@all` calls on everybody.
mentions_run :
    ((parse_group_mentions (λ s. s) (units "@bob and @annlee") members).member_ids
      ≡ units "a" ∷ units "b" ∷ [])
    × ((parse_group_mentions (λ s. s) (units "@bobby!") members).member_ids ≡ [])
    × ((parse_group_mentions (λ s. s) (units "@all: hi") members).is_everyone ≡ true)
unfolding parse_group_mentions mentioned_ids is_mentioned mention_handles has_mention_at
    mention_from everyone_from is_word_char is_regex_word strip_spaces first_word add_handle trim
    trim_start is_space starts_with text_beq
mentions_run = (refl, refl, refl)
