-- ===== src/Messaging/Relay.antt =====
-- packages/messaging/src/cross-user-relay.ts: remote turns under a budget, a backoff and a cache
-- of results by nonce. A turn is two steps, before and after the await of the transport, so that
-- turns interleave; the transport and the handler enter as the values that they return.
pub mod Budget
pub mod Replay
mod Examples
use open_claw_bot.Common.{
  ℕ, ◌+◌, ◌-◌, ◌*◌, ◌++◌, Bool, true, false, Option, none, some, List, [], ◌∷◌, length, take, keep,
  if◌then◌else◌, ltb, leb,
}
use open_claw_bot.Common.Maps.{Dict, get, set}
use open_claw_bot.Common.Texts.{Text, text_eq}

pub record TurnRequest : Type 0 where
  pub nonce : Text
  pub room_id : Text
  pub from_agent_id : Text
  pub prompt : Text

pub record TurnResult : Type 0 where
  pub nonce : Text
  pub texts : List Text

abbrev pub remote_turn_max_texts : ℕ
remote_turn_max_texts = 2

abbrev pub turn_budget_window_ms : ℕ
turn_budget_window_ms = 10 * 60 * 1000

abbrev pub turn_budget_max_per_window : ℕ
turn_budget_max_per_window = 30

abbrev pub unreachable_backoff_default_ms : ℕ
unreachable_backoff_default_ms = 10 * 60 * 1000

pub record CrossUserRelay : Type 0 where
  pub budget_window_ms : ℕ
  pub budget_max_per_window : ℕ
  pub unreachable_backoff_ms : ℕ
  pub results : Dict Text TurnResult
  pub turn_timestamps : List ℕ
  pub unreachable_until : ℕ
  pub has_turn_handler : Bool

-- The constructor with its defaults.
unfoldable pub new_relay : CrossUserRelay
new_relay = record {
  budget_window_ms = turn_budget_window_ms;
  budget_max_per_window = turn_budget_max_per_window;
  unreachable_backoff_ms = unreachable_backoff_default_ms;
  results = [];
  turn_timestamps = [];
  unreachable_until = 0;
  has_turn_handler = false;
}

-- `now - t < window`, which the source takes over signed numbers.
abbrev pub in_window : ℕ → ℕ → ℕ → Bool
in_window window now t = ltb now (t + window)

unfoldable pub prune_window : ℕ → CrossUserRelay → CrossUserRelay
prune_window now s = record s {
  turn_timestamps = keep (in_window s.budget_window_ms now) s.turn_timestamps;
}

-- What `executeRemoteTurn` comes to before its await.
pub data Begun : Type 0 where
  replayed : TurnResult → Begun
  backed_off : ℕ → Begun
  over_budget dispatched : Begun

pub admit : ℕ → CrossUserRelay → Begun × CrossUserRelay
admit now s =
    if leb s.budget_max_per_window (length s.turn_timestamps)
    then (over_budget, s)
    else (dispatched, record s { turn_timestamps = s.turn_timestamps ++ now ∷ [] })

fresh_turn : ℕ → CrossUserRelay → Begun × CrossUserRelay
unfolding admit prune_window
fresh_turn now s =
    if ltb now s.unreachable_until
    then (backed_off (s.unreachable_until - now), s)
    else admit now (prune_window now s)

unfoldable pub begin_turn : ℕ → TurnRequest → CrossUserRelay → Begun × CrossUserRelay
unfolding fresh_turn
begin_turn now request s = elim (get s.results request.nonce) [
  | some cached ↦ (replayed cached, s)
  | none ↦ fresh_turn now s
]

unfoldable pub cap_texts : Text → List Text → TurnResult
cap_texts nonce texts = record { nonce = nonce; texts = take remote_turn_max_texts texts }

-- The transport answered: the result is capped, kept and returned.
unfoldable pub complete_turn :
    TurnRequest → TurnResult → CrossUserRelay → TurnResult × CrossUserRelay
unfolding cap_texts
complete_turn request result s =
    let capped = cap_texts result.nonce result.texts in
    (capped, record s { results = set s.results request.nonce capped })

-- The transport failed at the time `now`: the error thrown carries the backoff.
unfoldable pub fail_turn : ℕ → CrossUserRelay → ℕ × CrossUserRelay
fail_turn now s =
    (s.unreachable_backoff_ms, record s { unreachable_until = now + s.unreachable_backoff_ms })

unfoldable pub on_turn_request : CrossUserRelay → CrossUserRelay
on_turn_request s = record s { has_turn_handler = true }

-- `answerTurnRequest`, where the handler returned `texts`; `none` is the error of no handler.
unfoldable pub answer_turn_request :
    TurnRequest → List Text → CrossUserRelay → Option (TurnResult × CrossUserRelay)
unfolding cap_texts
answer_turn_request request texts s =
    let result = cap_texts request.nonce texts in
    if s.has_turn_handler
    then some (result, record s { results = set s.results request.nonce result })
    else none

pub record Diagnostics : Type 0 where
  pub turns_in_window : ℕ
  pub unreachable_until : ℕ
  pub cached_results : ℕ

unfoldable pub diagnostics : ℕ → CrossUserRelay → Diagnostics × CrossUserRelay
unfolding prune_window
diagnostics now s =
    let pruned = prune_window now s in
    (
      record {
        turns_in_window = length pruned.turn_timestamps;
        unreachable_until = pruned.unreachable_until;
        cached_results = length pruned.results;
      },
      pruned,
    )

-- The steps that turns, answers and reads of the diagnostics interleave.
pub data Event : Type 0 where
  begins : ℕ → TurnRequest → Event
  completes : TurnRequest → TurnResult → Event
  fails : ℕ → Event
  registers : Event
  answers : TurnRequest → List Text → Event
  diagnoses : ℕ → Event

abbrev after_answer : CrossUserRelay → Option (TurnResult × CrossUserRelay) → CrossUserRelay
after_answer s none = s
after_answer s (some (r, s')) = s'

unfoldable pub step : CrossUserRelay → Event → CrossUserRelay
step s (begins now request) = (begin_turn now request s).1
step s (completes request result) = (complete_turn request result s).1
step s (fails now) = (fail_turn now s).1
step s registers = on_turn_request s
step s (answers request texts) = after_answer s (answer_turn_request request texts s)
step s (diagnoses now) = (diagnostics now s).1

unfoldable pub run : CrossUserRelay → List Event → CrossUserRelay
run s [] = s
run s (e ∷ es) = run (step s e) es
