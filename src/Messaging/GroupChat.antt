-- ===== src/Messaging/GroupChat.antt =====
-- packages/messaging/src/group-chat.ts: the order of speakers, @-mentions, and the window of a
-- room's history that a member has not seen.
pub mod Turns
pub mod Mentions
mod Examples
use open_claw_bot.Common.{
  ℕ, zero, suc, ◌+◌, ◌%◌, ◌++◌, Bool, true, false, not, ◌&&◌, ◌||◌, Option, none, some, List, [],
  ◌∷◌, map, length, take, drop, get_elem?, last?, keep, contains, is_empty, if◌then◌else◌, ◌==◌,
  leb, nat_beq,
}
use open_claw_bot.Common.Texts.{Text, units, text_eq, trim, is_space, starts_with}

abbrev pub group_max_member_turns : ℕ
group_max_member_turns = 10

abbrev pub group_max_rounds : ℕ
group_max_rounds = 3

abbrev pub group_max_messages_per_turn : ℕ
group_max_messages_per_turn = 2

abbrev pub shared_room_history_limit : ℕ
shared_room_history_limit = 24

pub record Member : Type 0 where
  pub id : Text
  pub name : Text
  pub description : Text

pub data Speaker : Type 0 where
  user : Option Text → Speaker
  member : Text → Text → Speaker

pub record Message : Type 0 where
  pub speaker : Speaker
  pub content : Text

-- The empty list has no offset; elsewhere the round is taken modulo the number of members.
unfoldable pub order_round_speakers : List Text → ℕ → List Text
order_round_speakers [] round = []
order_round_speakers (id ∷ ids) round =
    let n = length (id ∷ ids) in
    let offset = (round % n + n) % n in drop offset (id ∷ ids) ++ take offset (id ∷ ids)

-- `[a-z0-9]` and `\w`.
unfoldable pub is_word_char : ℕ → Bool
is_word_char c = (leb b'a' c && leb c b'z') || (leb b'0' c && leb c b'9')

unfoldable pub is_regex_word : ℕ → Bool
unfolding is_word_char
is_regex_word c = is_word_char c || (leb b'A' c && leb c b'Z') || nat_beq c b'_'

-- A test of a character that may not be there.
abbrev pub at_char : (ℕ → Bool) → Option ℕ → Bool
at_char p none = false
at_char p (some c) = p c

abbrev head_of : Text → Option ℕ
head_of [] = none
head_of (c ∷ s) = some c

-- Does `needle` stand here, with no word character on either side?
mention_here : Option ℕ → Text → Text → Bool
unfolding is_word_char starts_with
mention_here before s needle =
    starts_with s needle
    && not (at_char is_word_char before)
    && not (at_char is_word_char (head_of (drop (length needle) s)))

-- The loop of `hasMentionAt` over the occurrences of `needle`, position by position.
unfoldable pub mention_from : Option ℕ → Text → Text → Bool
unfolding mention_here
mention_from before [] needle = mention_here before [] needle
mention_from before (c ∷ s) needle =
    mention_here before (c ∷ s) needle || mention_from (some c) s needle

unfoldable pub has_mention_at : Text → Text → Bool
unfolding mention_from
has_mention_at lower handle = mention_from none lower (b'@' ∷ handle)

-- The expression EVERYONE_MENTION: either word, then a word boundary.
everyone_word : Text → Text → Bool
unfolding is_regex_word starts_with
everyone_word s needle =
    starts_with s needle && not (at_char is_regex_word (head_of (drop (length needle) s)))

unfoldable pub everyone_from : Option ℕ → Text → Bool
unfolding everyone_word is_word_char
everyone_from before [] = false
everyone_from before (c ∷ s) =
    (not (at_char is_word_char before)
      && (everyone_word (c ∷ s) (units "@everyone") || everyone_word (c ∷ s) (units "@all")))
    || everyone_from (some c) s

-- `replace(/\s+/g, "")` and the first part of `split(/\s+/)`.
unfoldable pub strip_spaces : Text → Text
unfolding is_space
strip_spaces s = keep (λ c. not (is_space c)) s

unfoldable pub first_word : Text → Text
unfolding is_space
first_word [] = []
first_word (c ∷ s) = if is_space c then [] else c ∷ first_word s

-- Adding to the source's `Set`.
unfoldable pub add_handle : List Text → Text → List Text
add_handle handles h = if contains handles h then handles else handles ++ h ∷ []

pub record MentionTargets : Type 0 where
  pub is_everyone : Bool
  pub member_ids : List Text

pub responders_of : MentionTargets → List Member → List Member
responders_of m members =
    if m.is_everyone
    then members
    else if is_empty m.member_ids
    then members
    else keep (λ x. contains m.member_ids x.id) members

-- `to_lower` stands for the runtime's `toLowerCase`.
module _ (to_lower : Text → Text) where
  unfoldable pub mention_handles : Text → List Text
  unfolding trim strip_spaces first_word add_handle
  mention_handles name =
      let lower = to_lower (trim name) in
      let first = first_word lower in
      let handles = add_handle (add_handle [] lower) (strip_spaces lower) in
      if is_empty lower then [] else if is_empty first then handles else add_handle handles first

  any_handle : Text → List Text → Bool
  unfolding has_mention_at
  any_handle lower [] = false
  any_handle lower (h ∷ hs) = has_mention_at lower h || any_handle lower hs

  unfoldable pub is_mentioned : Text → Member → Bool
  unfolding any_handle mention_handles
  is_mentioned lower m = any_handle lower (mention_handles m.name)

  -- The loop of `parseGroupMentions`; `seen` holds the ids that are already taken.
  unfoldable pub mentioned_ids : Text → List Text → List Member → List Text
  mentioned_ids lower seen [] = []
  mentioned_ids lower seen (m ∷ ms) =
      let taken = m.id ∷ mentioned_ids lower (m.id ∷ seen) ms in
      let passed = mentioned_ids lower seen ms in
      if contains seen m.id then passed else if is_mentioned lower m then taken else passed

  unfoldable pub parse_group_mentions : Text → List Member → MentionTargets
  unfolding everyone_from mentioned_ids
  parse_group_mentions text members =
      let lower = to_lower text in
      record { is_everyone = everyone_from none lower; member_ids = mentioned_ids lower [] members }

  answer_to : Speaker → Text → List Member → List Member
  unfolding responders_of
  answer_to (user name) content members = members
  answer_to (member id name) content members =
      responders_of (parse_group_mentions content members) members

  answer_last : Option Message → List Member → List Member
  unfolding answer_to
  answer_last none members = members
  answer_last (some m) members = answer_to m.speaker m.content members

  unfoldable pub resolve_responders : List Member → List Message → List Member
  unfolding answer_last
  resolve_responders members history = answer_last (last? history) members

unfoldable pub is_pass_content : Text → Bool
unfolding trim
is_pass_content content =
    let trimmed = trim content in
    trimmed == units "[[pass]]" || trimmed == units "[pass]" || trimmed == units "PASS"

-- Is the message by the member `id`?
abbrev pub is_by : Text → Speaker → Bool
is_by id (user name) = false
is_by id (member other name) = other == id

-- The loop of `messagesSinceMemberLastSpoke` from the index `i - 1` down: the index behind the last
-- message of the member, 0 if there is none.
unfoldable pub after_last_spoke : List Message → Text → ℕ → ℕ
after_last_spoke history id zero = 0
after_last_spoke history id (suc i) =
    let earlier = after_last_spoke history id i in
    elim (get_elem? history i) [
      | none ↦ earlier
      | some m ↦ if is_by id m.speaker then suc i else earlier
    ]

unfoldable pub messages_since_member_last_spoke : List Message → Text → List Message
unfolding after_last_spoke
messages_since_member_last_spoke history id =
    drop (after_last_spoke history id (length history)) history
