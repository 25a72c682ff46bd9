-- ===== src/Community/Usage/Totals.antt =====
-- What a snapshot of apps/community/usage.mjs says of the events that a room has recorded.
use open_claw_bot.Common.{
  ℕ, ◌+◌, min, ◌≡◌, Bool, Option, none, some, List, [], ◌∷◌, length, if◌then◌else◌, ◌==◌, or_else,
}
use open_claw_bot.Common.Texts.{Text, text_eq}
use open_claw_bot.Community.Usage.{Value, max_count}
use open_claw_bot.Community.Usage.Events.{Usage, RawUsage, sanitize_event}
use open_claw_bot.Community.Usage.Store.{
  Row, UsageStore, new_store, room_id_of, record_usage, decoded, Snapshot,
}

-- A call of `record`: the time, the room and the event that came in.
pub record Call : Type 0 where
  pub now : ℕ
  pub room : Value
  pub value : Option RawUsage

-- The sum of what was measured; nothing if nothing was.
abbrev pub measured : (Usage → Option ℕ) → List Usage → Option ℕ
measured f [] = none
measured f (e ∷ es) = elim (f e) [
  | none ↦ measured f es
  | some n ↦ some (or_else (measured f es) 0 + n)
]

abbrev pub capped : Option ℕ → Option ℕ
capped none = none
capped (some n) = some (min n max_count)

abbrev pub latest : List Usage → Option Usage
latest [] = none
latest (e ∷ es) = some e

-- The events of a history that one room has recorded; a history has its latest call first.
module _ (is_date : Text → Bool) where
  abbrev pub run : List Call → UsageStore
  run [] = new_store
  run (call ∷ earlier) = record_usage is_date call.now call.room call.value (run earlier)

  abbrev pub accepted : Text → List Call → List Usage
  accepted room [] = []
  accepted room (call ∷ earlier) = elim (room_id_of call.room) [
    | none ↦ accepted room earlier
    | some id ↦ elim (sanitize_event is_date call.now call.value) [
      | none ↦ accepted room earlier
      | some e ↦ if id == room then e ∷ accepted room earlier else accepted room earlier
    ]
  ]

abbrev pub then_decoded : (Text → Bool) → ℕ → Option Usage → Option Usage
then_decoded is_date now none = none
then_decoded is_date now (some e) = decoded is_date now e

abbrev summary : List Usage → Option Row
summary [] = none
summary (e ∷ es) = some (record {
  requests = min (length (e ∷ es)) max_count;
  input_tokens = capped (measured (λ u. u.input_tokens) (e ∷ es));
  output_tokens = capped (measured (λ u. u.output_tokens) (e ∷ es));
  last = e;
})

abbrev row_of : ℕ → Option ℕ → Option ℕ → Usage → Option Row
row_of n i o e = some (record { requests = n; input_tokens = i; output_tokens = o; last = e })

-- What a snapshot says of the events of its room.
pub record Tells (is_date : Text → Bool) (now : ℕ) (es : List Usage) (shown : Snapshot)
    : Type 0 where
  pub requests : shown.requests ≡ min (length es) max_count
  pub input_tokens : shown.input_tokens ≡ capped (measured (λ u. u.input_tokens) es)
  pub output_tokens : shown.output_tokens ≡ capped (measured (λ u. u.output_tokens) es)
  pub last : shown.last ≡ then_decoded is_date now (latest es)
