-- ===== src/Messaging/Orchestrator/Examples.antt =====
-- Conversations of packages/messaging/src/group-orchestrator.ts with two members.
use open_claw_bot.Common.{ℕ, zero, suc, ◌≡◌, refl, false, [], ◌∷◌, leb, not, none, some}
use open_claw_bot.Common.Texts.{units, text_eq, text_beq, trim, trim_start, is_space}
use open_claw_bot.Messaging.GroupChat.{Member, is_pass_content}
use open_claw_bot.Messaging.Orchestrator.{
  TurnReply, no_runner, said, returned, Room, converse, collect_spoken, spoken_of, live_members,
  run_conversation,
}

abbrev ann : Member
ann = record { id = units "a"; name = units "ann"; description = [] }

abbrev bob : Member
bob = record { id = units "b"; name = units "bob"; description = [] }

abbrev if_first : ℕ → TurnReply
if_first zero = said (units " hi " ∷ units "[[pass]]" ∷ [])
if_first (suc k) = no_runner

-- Ann speaks in her first turn and Bob passes; nobody has more to say.
abbrev chat : Room
chat = record {
  members = ann ∷ bob ∷ [];
  is_shared_room = false;
  is_current = λ k. not (leb 4 k);
  turn = λ k m peers shown. if_first k;
  to_lower = λ s. s;
}

abbrev silent_chat : Room
silent_chat = record chat { turn = λ k m peers shown. no_runner }

-- The texts of a turn are trimmed, and a pass is none.
said_hi : spoken_of (said (units " hi " ∷ units "PASS" ∷ [])) ≡ some (units "hi" ∷ [])
unfolding spoken_of collect_spoken trim trim_start is_space is_pass_content text_beq
said_hi = refl

nothing : spoken_of no_runner ≡ some []
unfolding spoken_of
nothing = refl

-- A session that is gone takes its member out, and nobody is left to talk.
nobody_left :
    (run_conversation (λ id. none) (units "a" ∷ []) (λ ms. record chat { members = ms })).0
    ≡ returned
unfolding run_conversation live_members converse
nobody_left = refl
