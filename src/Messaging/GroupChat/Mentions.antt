-- ===== src/Messaging/GroupChat/Mentions.antt =====
-- Which members an @-mention of packages/messaging/src/group-chat.ts calls on.
use open_claw_bot.Common.{
  ◌≤◌, length, length-keep-le, ◌≡◌, ◌≢◌, refl, Bool, true, false, not, ◌&&◌, Option, none, some,
  List, [], ◌∷◌, any, keep, contains, last?, ◌==◌, arith,
}
use open_claw_bot.Common.Texts.{Text, text_eq, text_beq_iff}
use open_claw_bot.Messaging.GroupChat.{
  Member, Speaker, Message, MentionTargets, user, member, is_mentioned, mentioned_ids,
  parse_group_mentions, responders_of, answer_to, answer_last, resolve_responders,
}

-- No text occurs twice.
abbrev pub IsDistinct : List Text → Type 0
IsDistinct [] = Unit
IsDistinct (x ∷ xs) = (contains xs x ≡ false) × IsDistinct xs

module _ (to_lower : Text → Text) (lower : Text) where
  -- Is some member of this id mentioned?
  abbrev calls : Text → Member → Bool
  calls id m = m.id == id && is_mentioned to_lower lower m

  mentioned_ids-contains :
      (seen : List Text) (ms : List Member) (id : Text)
      → contains (mentioned_ids to_lower lower seen ms) id
        ≡ (not (contains seen id) && any (calls id) ms)
  unfolding mentioned_ids
  mentioned_ids-contains seen [] id = ground arith
  mentioned_ids-contains seen (m ∷ ms) id = ground (
    arith,
    mentioned_ids-contains seen ms id,
    mentioned_ids-contains (m.id ∷ seen) ms id,
    text_beq_iff m.id id,
  )

  mentioned_ids-IsDistinct :
      (seen : List Text) (ms : List Member) → IsDistinct (mentioned_ids to_lower lower seen ms)
  unfolding mentioned_ids
  mentioned_ids-IsDistinct seen [] = tt
  mentioned_ids-IsDistinct seen (m ∷ ms) = ground (
    arith,
    mentioned_ids-IsDistinct seen ms,
    mentioned_ids-IsDistinct (m.id ∷ seen) ms,
    mentioned_ids-contains (m.id ∷ seen) ms m.id,
    text_beq_iff m.id m.id,
  )

  keep-called :
      (ids : List Text) (id : Text) (ms : List Member)
      → contains ids id ≡ true
      → any (calls id) ms ≡ true
      → keep (λ m. contains ids m.id) ms ≢ []
  keep-called ids id [] there called = cc
  keep-called ids id (m ∷ ms) there called =
      ground (arith, text_beq_iff m.id id, keep-called ids id ms there)

-- The ids that a message mentions are exactly those of the members who have a handle in it, and
-- each is listed once.
pub parse_group_mentions-calls :
    (to_lower : Text → Text) (text : Text) (members : List Member) (id : Text)
    → let ids = (parse_group_mentions to_lower text members).member_ids in
      (contains ids id ≡ any (λ m. m.id == id && is_mentioned to_lower (to_lower text) m) members)
      × IsDistinct ids
unfolding parse_group_mentions
parse_group_mentions-calls to_lower text members id = (
  mentioned_ids-contains to_lower (to_lower text) [] members id,
  mentioned_ids-IsDistinct to_lower (to_lower text) [] members,
)

responders_of-ne-nil :
    (to_lower : Text → Text) (text : Text) (members : List Member) (ids : List Text)
    → members ≢ []
    → (parse_group_mentions to_lower text members).member_ids ≡ ids
    → responders_of (parse_group_mentions to_lower text members) members ≢ []
unfolding responders_of
responders_of-ne-nil to_lower text members [] some_member e = ground arith
responders_of-ne-nil to_lower text members (x ∷ rest) some_member e =
    let called = (parse_group_mentions-calls to_lower text members x).0 in
    ground
      (arith, called, text_beq_iff x x, keep-called to_lower (to_lower text) (x ∷ rest) x members)

answer_last-ne-nil :
    (to_lower : Text → Text) (members : List Member) (last : Option Message)
    → members ≢ []
    → answer_last to_lower last members ≢ []
unfolding answer_last
answer_last-ne-nil to_lower members none h = h
answer_last-ne-nil to_lower members (some m) h = by_speaker m.speaker
  where
    by_speaker : (s : Speaker) → answer_to to_lower s m.content members ≢ []
    by_speaker (user name) = h
    by_speaker (member id name) = responders_of-ne-nil to_lower m.content members _ h refl

-- Somebody answers: whatever the history, a room with members has a responder.
pub resolve_responders-ne-nil :
    (to_lower : Text → Text) (members : List Member) (history : List Message)
    → members ≢ []
    → resolve_responders to_lower members history ≢ []
unfolding resolve_responders
resolve_responders-ne-nil to_lower members history some_member =
    answer_last-ne-nil to_lower members (last? history) some_member

length-responders_of :
    (targets : MentionTargets) (members : List Member)
    → length (responders_of targets members) ≤ length members
unfolding responders_of
length-responders_of targets members =
    ground (arith, length-keep-le (λ (m : Member). contains targets.member_ids m.id) members)

length-answer_last :
    (to_lower : Text → Text) (members : List Member) (last : Option Message)
    → length (answer_last to_lower last members) ≤ length members
unfolding answer_last
length-answer_last to_lower members none = omega arith
length-answer_last to_lower members (some m) = by_speaker m.speaker
  where
    by_speaker : (s : Speaker) → length (answer_to to_lower s m.content members) ≤ length members
    by_speaker (user name) = unfold answer_to in omega arith
    by_speaker (member id name) =
        unfold answer_to in
        length-responders_of (parse_group_mentions to_lower m.content members) members

pub length-resolve_responders :
    (to_lower : Text → Text) (members : List Member) (history : List Message)
    → length (resolve_responders to_lower members history) ≤ length members
unfolding resolve_responders
length-resolve_responders to_lower members history =
    length-answer_last to_lower members (last? history)
