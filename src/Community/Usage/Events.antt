-- ===== src/Community/Usage/Events.antt =====
-- The events of apps/community/usage.mjs. `now` is the clock that an event
-- without a time of its own takes.
use open_claw_bot.Common.{
  ℕ, Bool, not, ◌&&◌, ◌||◌, Option, none, some, ◌++◌, length, is_empty, if◌then◌else◌, leb, ltb,
  nat_beq, or_else, is_some,
}
use open_claw_bot.Common.Ints.{pos}
use open_claw_bot.Common.Texts.{Text, units, text_eq}
use open_claw_bot.Community.Usage.{
  Value, text, integer, other, natural_within, count, header_count, reset_value, is_digit,
  all_chars,
}

-- The characters of a provider's and of a model's name.
unfoldable pub is_alphanumeric : ℕ → Bool
unfolding is_digit
is_alphanumeric c = is_digit c || (leb b'a' c && leb c b'z') || (leb b'A' c && leb c b'Z')

unfoldable pub is_provider_char : ℕ → Bool
unfolding is_alphanumeric
is_provider_char c = is_alphanumeric c || nat_beq c b'_' || nat_beq c b'.' || nat_beq c b'-'

unfoldable pub is_model_char : ℕ → Bool
unfolding is_provider_char
is_model_char c =
    is_provider_char c || nat_beq c b':' || nat_beq c b'/' || nat_beq c b'@' || nat_beq c b'+'

-- `safeName`, whose patterns ask for at least one character of a class.
unfoldable pub safe_name : Value → ℕ → (ℕ → Bool) → Option Text
unfolding all_chars
safe_name (text s) high p =
    if leb (length s) high && not (is_empty s) && all_chars p s then some s else none
safe_name (integer n) high p = none
safe_name other high p = none

pub record Limit : Type 0 where
  pub limit : Option ℕ
  pub remaining : Option ℕ
  pub reset : Option Text

pub record Limits : Type 0 where
  pub requests : Option Limit
  pub tokens : Option Limit

pub record Usage : Type 0 where
  pub provider : Text
  pub key_slot : Option ℕ
  pub model : Option Text
  pub status : ℕ
  pub at : ℕ
  pub input_tokens : Option ℕ
  pub output_tokens : Option ℕ
  pub limits : Limits

-- What comes in: any values; a limit that is no object is `none`.
pub record RawLimit : Type 0 where
  pub limit : Value
  pub remaining : Value
  pub reset : Value

pub record RawUsage : Type 0 where
  pub provider : Value
  pub key_slot : Value
  pub model : Value
  pub status : Value
  pub at : Value
  pub input_tokens : Value
  pub output_tokens : Value
  pub requests : Option RawLimit
  pub tokens : Option RawLimit

module _ (is_date : Text → Bool) where
  unfoldable pub sanitize_limit : Option RawLimit → Option Limit
  unfolding count reset_value
  sanitize_limit none = none
  sanitize_limit (some raw) =
      let result : Limit = record {
        limit = count raw.limit;
        remaining = count raw.remaining;
        reset = reset_value is_date raw.reset;
      } in
      if is_some result.limit || is_some result.remaining || is_some result.reset
      then some result
      else none

  abbrev pub sanitize_status : ℕ → Option ℕ → RawUsage → Option Usage
  sanitize_status now none raw = none
  sanitize_status now (some status) raw =
      let successful = leb 200 status && ltb status 300 in
      some (record {
        provider = or_else (safe_name raw.provider 64 is_provider_char) (units "unknown");
        key_slot = natural_within 0 9999 raw.key_slot;
        model = safe_name raw.model 200 is_model_char;
        status = status;
        at = or_else (natural_within 0 8640000000000000 raw.at) now;
        input_tokens = if successful then count raw.input_tokens else none;
        output_tokens = if successful then count raw.output_tokens else none;
        limits = record {
          requests = sanitize_limit raw.requests;
          tokens = sanitize_limit raw.tokens;
        };
      })

  -- `sanitizeEvent`; `none` is a value that is no object.
  unfoldable pub sanitize_event : ℕ → Option RawUsage → Option Usage
  unfolding natural_within
  sanitize_event now none = none
  sanitize_event now (some raw) = sanitize_status now (natural_within 100 599 raw.status) raw

-- A stored event, parsed again from its JSON.
abbrev value_of : Option ℕ → Value
value_of none = other
value_of (some n) = integer (pos n)

abbrev text_of : Option Text → Value
text_of none = other
text_of (some s) = text s

abbrev raw_limit : Option Limit → Option RawLimit
raw_limit none = none
raw_limit (some l) =
    some (record {
      limit = value_of l.limit;
      remaining = value_of l.remaining;
      reset = text_of l.reset;
    })

abbrev pub raw_usage : Usage → RawUsage
raw_usage e = record {
  provider = text e.provider;
  key_slot = value_of e.key_slot;
  model = text_of e.model;
  status = integer (pos e.status);
  at = integer (pos e.at);
  input_tokens = value_of e.input_tokens;
  output_tokens = value_of e.output_tokens;
  requests = raw_limit e.limits.requests;
  tokens = raw_limit e.limits.tokens;
}

-- `a ?? b` on two counts, as a value again.
abbrev first_count : Value → Value → Value
first_count a b = elim (count a) [ some n ↦ integer (pos n) | none ↦ value_of (count b) ]

-- What `usageEvent` reads from a response; `header` is the lookup of a header, which is absent
-- also where the lookup throws.
pub record Response : Type 0 where
  pub provider : Value
  pub key_slot : Value
  pub model : Value
  pub status : Value
  pub header : Text → Option Text
  pub prompt_tokens : Value
  pub usage_input_tokens : Value
  pub completion_tokens : Value
  pub usage_output_tokens : Value

abbrev header_value : Option Text → Value
header_value none = other
header_value (some s) = text s

module _ (is_date : Text → Bool) where
  -- `dimension`.
  unfoldable pub dimension : (Text → Option Text) → Text → RawLimit
  unfolding header_count reset_value
  dimension header kind = record {
    limit = value_of (header_count (header (units "x-ratelimit-limit-" ++ kind)));
    remaining = value_of (header_count (header (units "x-ratelimit-remaining-" ++ kind)));
    reset =
        text_of (reset_value is_date (header_value (header (units "x-ratelimit-reset-" ++ kind))));
  }

  unfoldable pub usage_event : ℕ → Response → Option Usage
  unfolding sanitize_event count dimension
  usage_event now r = sanitize_event is_date now (
      some (record {
        provider = r.provider;
        key_slot = r.key_slot;
        model = r.model;
        status = r.status;
        at = integer (pos now);
        input_tokens = first_count r.prompt_tokens r.usage_input_tokens;
        output_tokens = first_count r.completion_tokens r.usage_output_tokens;
        requests = some (dimension r.header (units "requests"));
        tokens = some (dimension r.header (units "tokens"));
      }))
