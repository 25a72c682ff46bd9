-- ===== src/Messaging/Orchestrator.antt =====
-- packages/messaging/src/group-orchestrator.ts: the bounded conversation of a room. The hub, the
-- runners and the check that the conversation is still current enter as functions of how many
-- times they have been called, so that they may answer differently each time.
pub mod Bounds
pub mod Stops
mod Examples
use open_claw_bot.Common.{
  ℕ, zero, suc, ◌+◌, ◌++◌, Bool, true, false, not, Option, none, some, List, [], ◌∷◌, map, length,
  keep, take_last, is_empty, if◌then◌else◌, ◌==◌, leb,
}
use open_claw_bot.Common.Texts.{Text, text_eq, trim}
use open_claw_bot.Messaging.GroupChat.{
  Member, Message, member, group_max_member_turns, group_max_rounds, group_max_messages_per_turn,
  shared_room_history_limit, order_round_speakers, resolve_responders, is_pass_content,
  messages_since_member_last_spoke,
}

-- What a member's turn comes to: no runner, no session any more, an error of the runner, or the
-- texts that it produced.
pub data TurnReply : Type 0 where
  no_runner session_gone threw : TurnReply
  said : List Text → TurnReply

-- How a loop leaves: it goes on, the conversation returns, or its promise is rejected.
pub data Outcome : Type 0 where
  goes_on returned rejected : Outcome

-- `total` counts posted messages; `checks` and `turns` count the calls of the environment.
pub record Talk : Type 0 where
  pub history : List Message
  pub total : ℕ
  pub checks : ℕ
  pub turns : ℕ

abbrev pub opening : Talk
opening = record { history = []; total = 0; checks = 0; turns = 0 }

-- The loop of `runOneTurn` over the texts of a turn, with `n` texts kept so far.
unfoldable pub collect_spoken : ℕ → List Text → List Text
collect_spoken n [] = []
collect_spoken n (c ∷ cs) =
    let skipped = collect_spoken n cs in
    let kept =
      trim c
      ∷ (let rest = collect_spoken (n + 1) cs in
          if leb group_max_messages_per_turn (n + 1) then [] else rest) in
    if is_pass_content c then skipped else if is_empty (trim c) then skipped else kept

-- What a turn says: nothing without a runner or session, the kept texts otherwise.
unfoldable pub spoken_of : TurnReply → Option (List Text)
unfolding collect_spoken
spoken_of no_runner = some []
spoken_of session_gone = some []
spoken_of threw = none
spoken_of (said texts) = some (collect_spoken 0 texts)

-- The loop over the texts that a member sent: the talk, the messages posted, and whether the cap
-- on messages was hit.
unfoldable pub post_all : Member → List Text → Talk → Talk × ℕ × Bool
post_all m [] t = (t, 0, false)
post_all m (c ∷ cs) t =
    let posted = record t {
      history = t.history ++ record { speaker = member m.id m.name; content = c } ∷ [];
      total = t.total + 1;
    } in
    let rest = post_all m cs posted in
    if leb group_max_member_turns (t.total + 1)
    then (posted, 1, true)
    else (rest.0, rest.1 + 1, rest.2)

-- `memberById`: of members with one id, the last.
unfoldable pub member_by_id : List Member → Text → Option Member
member_by_id [] id = none
member_by_id (m ∷ ms) id = elim (member_by_id ms id) [
  | some later ↦ some later
  | none ↦ if m.id == id then some m else none
]

-- The settings of a conversation and its environment: `turn` sees the member, its peers and the
-- messages that its prompt shows.
pub record Room : Type 0 where
  pub members : List Member
  pub is_shared_room : Bool
  pub is_current : ℕ → Bool
  pub turn : ℕ → Member → List Member → List Message → TurnReply
  pub to_lower : Text → Text

abbrev pub check : Talk → Talk
check t = record t { checks = t.checks + 1 }

-- A loop over speakers goes on only if the turn did not end the conversation.
abbrev pub proceed : Outcome × ℕ × Talk → (ℕ → Talk → Outcome × ℕ × Talk) → Outcome × ℕ × Talk
proceed (goes_on, n, t) k = k n t
proceed (returned, n, t) k = (returned, n, t)
proceed (rejected, n, t) k = (rejected, n, t)

-- What follows a round.
abbrev pub next_round : Outcome × ℕ × Talk → (Talk → Outcome × Talk) → Outcome × Talk
next_round (goes_on, zero, t) k = (returned, t)
next_round (goes_on, suc n, t) k = k t
next_round (returned, n, t) k = (returned, t)
next_round (rejected, n, t) k = (rejected, t)

module _ (r : Room) where
  -- The messages that the prompt of a member shows.
  unfoldable pub new_messages : Member → List Message → List Message
  new_messages m history =
      if r.is_shared_room
      then take_last shared_room_history_limit history
      else messages_since_member_last_spoke history m.id

  unfoldable pub run_one_turn : Member → Talk → Option (List Text) × Talk
  unfolding spoken_of new_messages
  run_one_turn m t =
      let peers = keep (λ other. not (other.id == m.id)) r.members in
      (
        spoken_of (r.turn t.turns m peers (new_messages m t.history)),
        record t { turns = t.turns + 1 },
      )

  -- One speaker of a round that has posted `n` messages so far.
  unfoldable pub speak : Member → ℕ → Talk → Outcome × ℕ × Talk
  unfolding run_one_turn post_all
  speak m n t = elim (run_one_turn m t).0 [
    | none ↦ (rejected, n, (run_one_turn m t).1)
    | some sent ↦
        let (t', posted, hit_cap) = post_all m sent (run_one_turn m t).1 in
        ((if hit_cap then returned else goes_on), n + posted, t')
  ]

  -- The loop over the speakers of a round.
  unfoldable pub speak_round : List Text → ℕ → Talk → Outcome × ℕ × Talk
  unfolding speak member_by_id
  speak_round [] n t = (goes_on, n, t)
  speak_round (id ∷ ids) n t =
      if leb group_max_member_turns t.total
      then (returned, n, t)
      else (elim (r.is_current t.checks) [
        | false ↦ (returned, n, check t)
        | true ↦ elim (member_by_id r.members id) [
          | none ↦ speak_round ids n (check t)
          | some m ↦ proceed (speak m n (check t)) (speak_round ids)
        ]
      ])

  -- The rounds that are left, from the round `round`; one that posts nothing is the last.
  unfoldable pub run_rounds : ℕ → ℕ → Talk → Outcome × Talk
  unfolding speak_round
  run_rounds zero round t = (returned, t)
  run_rounds (suc left) round t = elim (r.is_current t.checks) [
    | false ↦ (returned, check t)
    | true ↦
        let responders = resolve_responders r.to_lower r.members t.history in
        let ids = order_round_speakers (map (λ m. m.id) responders) round in
        next_round (speak_round ids 0 (check t)) (run_rounds left (round + 1))
  ]

  unfoldable pub converse : Outcome × Talk
  unfolding run_rounds
  converse =
      if is_empty r.members then (returned, opening) else run_rounds group_max_rounds 0 opening

-- The members that still have a session, in the order given; `name_of` is the hub's
-- session lookup, with the id and the name of the session.
unfoldable pub live_members : (Text → Option (Text × Text)) → List Text → List Member
live_members name_of [] = []
live_members name_of (id ∷ ids) =
    let rest = live_members name_of ids in
    elim (name_of id) [
      | none ↦ rest
      | some (session_id, name) ↦ record { id = session_id; name = name; description = [] } ∷ rest
    ]

-- `GroupChatOrchestrator.run`.
unfoldable pub run_conversation :
    (Text → Option (Text × Text)) → List Text → (List Member → Room) → Outcome × Talk
unfolding live_members converse
run_conversation name_of member_ids room = converse (room (live_members name_of member_ids))
