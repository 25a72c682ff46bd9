-- ===== src/Community/Usage/Examples.antt =====
-- Responses and rooms of apps/community/usage.mjs.
use open_claw_bot.Common.{◌≡◌, refl, Bool, true, false, none, some, List, [], ◌∷◌}
use open_claw_bot.Common.Ints.{pos}
use open_claw_bot.Common.Texts.{Text, units, text_eq, trim, trim_start, is_space}
use open_claw_bot.Community.Usage.{
  text, integer, other, natural_within, count, is_digit, all_chars, some_digits, number_from,
  header_count, after_digits, duration_step, is_duration_from, split_at, is_decimal, has_shape,
  is_iso_time, reset_value,
}
use open_claw_bot.Community.Usage.Events.{RawUsage, Usage}
use open_claw_bot.Community.Usage.Totals.{Call}

abbrev never : Text → Bool
never s = false

abbrev raw : RawUsage
raw = record {
  provider = text (units "groq");
  key_slot = integer (pos 2);
  model = text (units "a b");
  status = integer (pos 200);
  at = integer (pos 7);
  input_tokens = integer (pos 12);
  output_tokens = other;
  requests = none;
  tokens = none;
}

abbrev kept : Usage
kept = record {
  provider = units "groq";
  key_slot = some 2;
  model = none;
  status = 200;
  at = 7;
  input_tokens = some 12;
  output_tokens = none;
  limits = record { requests = none; tokens = none };
}

abbrev calls : List Call
calls =
    record { now = 3; room = text (units "r"); value = some raw }
    ∷ record { now = 2; room = text (units "other"); value = some raw }
    ∷ record { now = 1; room = text (units "r"); value = some raw }
    ∷ []

-- Times until a reset are seconds, durations or dates.
reset_runs :
    (reset_value never (text (units " 2m59.56s ")) ≡ some (units "2m59.56s"))
    × (reset_value never (text (units "7ms")) ≡ some (units "7ms"))
    × (reset_value never (text (units "12.5")) ≡ some (units "12.5"))
    × (reset_value never (text (units "12.5x")) ≡ none)
    × (reset_value (λ s. true) (text (units "2026-01-02T03:04:05.678Z"))
        ≡ some (units "2026-01-02T03:04:05.678Z"))
    × (header_count (some (units " 0120 ")) ≡ some 120)
    × (header_count (some (units "-1")) ≡ none)
unfolding reset_value is_duration_from duration_step after_digits is_decimal split_at is_iso_time
    has_shape is_digit some_digits all_chars trim trim_start is_space header_count number_from count
    natural_within
reset_runs = (refl, refl, refl, refl, refl, refl, refl)
