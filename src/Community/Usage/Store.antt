-- ===== src/Community/Usage/Store.antt =====
-- The two tables of apps/community/usage.mjs.
use open_claw_bot.Common.{
  ℕ, ◌+◌, min, Bool, true, false, ◌&&◌, ◌||◌, Option, none, some, List, [], ◌∷◌, length, is_empty,
  if◌then◌else◌, ◌==◌, ltb, nat_beq, or_else,
}
use open_claw_bot.Common.Ints.{pos}
use open_claw_bot.Common.Maps.{Dict, get, set}
use open_claw_bot.Common.Texts.{Text, text_eq}
use open_claw_bot.Community.Usage.{Value, text, integer, other, max_count, count}
use open_claw_bot.Community.Usage.Events.{Usage, RawUsage, raw_usage, sanitize_event}

-- A row of `model_usage_totals`, and the store with both tables.
pub record Row : Type 0 where
  pub requests : ℕ
  pub input_tokens : Option ℕ
  pub output_tokens : Option ℕ
  pub last : Usage

-- A provider with the slot of its key. A key without a slot has -1 in the table.
pub record ProviderRow : Type 0 where
  pub provider : Text
  pub key_slot : Option ℕ
  pub last : Usage

pub record UsageStore : Type 0 where
  pub totals : Dict Text Row
  pub providers : List ProviderRow

abbrev pub new_store : UsageStore
new_store = record { totals = []; providers = [] }

-- `MIN(COALESCE(total,0)+added, MAX_COUNT)` where something was measured.
unfoldable pub add_tokens : Option ℕ → Option ℕ → Option ℕ
add_tokens total none = total
add_tokens total (some n) = some (min (or_else total 0 + n) max_count)

unfoldable pub add_row : Usage → Option Row → Row
unfolding add_tokens
add_row e none = record {
  requests = 1;
  input_tokens = e.input_tokens;
  output_tokens = e.output_tokens;
  last = e;
}
add_row e (some row) = record {
  requests = min (row.requests + 1) max_count;
  input_tokens = add_tokens row.input_tokens e.input_tokens;
  output_tokens = add_tokens row.output_tokens e.output_tokens;
  last = e;
}

-- The order and the primary key of `model_usage_providers`.
unfoldable pub text_ltb : Text → Text → Bool
text_ltb a [] = false
text_ltb [] (y ∷ b) = true
text_ltb (x ∷ a) (y ∷ b) = ltb x y || (nat_beq x y && text_ltb a b)

abbrev slot_ltb : Option ℕ → Option ℕ → Bool
slot_ltb a none = false
slot_ltb none (some j) = true
slot_ltb (some i) (some j) = ltb i j

abbrev pub slot_beq : Option ℕ → Option ℕ → Bool
slot_beq none none = true
slot_beq none (some j) = false
slot_beq (some i) none = false
slot_beq (some i) (some j) = nat_beq i j

unfoldable pub put_provider : List ProviderRow → Usage → List ProviderRow
unfolding text_ltb
put_provider [] e = record { provider = e.provider; key_slot = e.key_slot; last = e } ∷ []
put_provider (row ∷ rows) e =
    let fresh : ProviderRow = record { provider = e.provider; key_slot = e.key_slot; last = e } in
    let behind = put_provider rows e in
    if row.provider == e.provider && slot_beq row.key_slot e.key_slot
    then fresh ∷ rows
    else if text_ltb e.provider row.provider
        || (row.provider == e.provider && slot_ltb e.key_slot row.key_slot)
    then fresh ∷ row ∷ rows
    else row ∷ behind

unfoldable pub room_id_of : Value → Option Text
room_id_of (text s) = if is_empty s || ltb 200 (length s) then none else some s
room_id_of (integer n) = none
room_id_of other = none

abbrev pub store_event : UsageStore → Text → Usage → UsageStore
store_event s room e = record {
  totals = set s.totals room (add_row e (get s.totals room));
  providers = put_provider s.providers e;
}

pub record Snapshot : Type 0 where
  pub input_tokens : Option ℕ
  pub output_tokens : Option ℕ
  pub requests : ℕ
  pub last : Option Usage
  pub providers : List Usage

-- `count` of a column, which may be null.
abbrev pub count_column : Option ℕ → Option ℕ
count_column none = none
count_column (some n) = count (integer (pos n))

module _ (is_date : Text → Bool) where
  abbrev record_sanitized : UsageStore → Option Text → Option Usage → UsageStore
  record_sanitized s none e = s
  record_sanitized s (some room) none = s
  record_sanitized s (some room) (some e) = store_event s room e

  -- `record`, with both statements or neither.
  unfoldable pub record_usage : ℕ → Value → Option RawUsage → UsageStore → UsageStore
  unfolding room_id_of sanitize_event add_row put_provider
  record_usage now room value s =
      record_sanitized s (room_id_of room) (sanitize_event is_date now value)

  abbrev pub decoded : ℕ → Usage → Option Usage
  decoded now e = sanitize_event is_date now (some (raw_usage e))

  abbrev pub decode_rows : ℕ → List ProviderRow → List Usage
  decode_rows now [] = []
  decode_rows now (row ∷ rows) = elim (decoded now row.last) [
    | none ↦ decode_rows now rows
    | some e ↦ e ∷ decode_rows now rows
  ]

  abbrev pub snapshot_row : ℕ → List Usage → Option Row → Snapshot
  snapshot_row now providers none = record {
    input_tokens = none;
    output_tokens = none;
    requests = 0;
    last = none;
    providers = providers;
  }
  snapshot_row now providers (some row) = record {
    input_tokens = count_column row.input_tokens;
    output_tokens = count_column row.output_tokens;
    requests = or_else (count (integer (pos row.requests))) 0;
    last = decoded now row.last;
    providers = providers;
  }

  unfoldable pub snapshot : ℕ → Text → Bool → UsageStore → Snapshot
  unfolding sanitize_event count
  snapshot now room include_providers s =
      snapshot_row now (if include_providers then decode_rows now s.providers else [])
        (get s.totals room)
