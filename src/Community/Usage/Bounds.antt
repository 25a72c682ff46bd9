-- ===== src/Community/Usage/Bounds.antt =====
-- What an event that apps/community/usage.mjs lets in can hold.
use mathlib.Core.Option.{some-injective}
use open_claw_bot.Common.{
  ℕ, ◌≤◌, ◌<◌, ◌≡◌, sym, ap, ◌∙◌, subst, ◌⊎◌, inl, inr, Bool, true, false, Option, none, some,
  length, if◌then◌else◌, arith, Option-cases,
}
use open_claw_bot.Common.Ints.{pos, negsuc}
use open_claw_bot.Common.Texts.{Text, text_eq}
use open_claw_bot.Community.Usage.{
  all_chars, Value, text, integer, other, max_count, natural_within, count,
}
use open_claw_bot.Community.Usage.Events.{
  is_provider_char, is_model_char, Usage, RawUsage, sanitize_status, sanitize_event,
}

pub natural_within-bounds :
    (low high : ℕ) (v : Value) (n : ℕ) → natural_within low high v ≡ some n → (low ≤ n) × (n ≤ high)
unfolding natural_within
natural_within-bounds low high (text s) n e = cc
natural_within-bounds low high (integer (pos k)) n e = (ground arith, ground arith)
natural_within-bounds low high (integer (negsuc k)) n e = cc
natural_within-bounds low high other n e = cc

pub natural_within-id :
    (n : ℕ) (high : ℕ)
    → n ≤ high
    → high < 9007199254740992
    → natural_within 0 high (integer (pos n)) ≡ some n
unfolding natural_within
natural_within-id n high le safe = ground arith

-- Counts of an event that was let in are in range.
abbrev pub IsCounted : Usage → Type 0
IsCounted e =
    ((n : ℕ) → e.input_tokens ≡ some n → n ≤ max_count)
    × ((n : ℕ) → e.output_tokens ≡ some n → n ≤ max_count)

count-le : (b : Bool) (v : Value) (n : ℕ) → (if b then count v else none) ≡ some n → n ≤ max_count
unfolding count
count-le true v n e = (natural_within-bounds 0 max_count v n e).1
count-le false v n e = cc

pub sanitize_event-IsCounted :
    (is_date : Text → Bool) (now : ℕ) (value : Option RawUsage) (e : Usage)
    → sanitize_event is_date now value ≡ some e
    → IsCounted e
unfolding sanitize_event
sanitize_event-IsCounted is_date now none e h = cc
sanitize_event-IsCounted is_date now (some raw) e h =
    elim (Option-cases (natural_within 100 599 raw.status)) [
      | inl bad ↦
          (let none_in : none ≡ some e =
              sym (ap (λ o. sanitize_status is_date now o raw) bad) ∙ h in
            cc)
      | inr (status, ok) ↦
          let shape = sym (ap (λ o. sanitize_status is_date now o raw) ok) ∙ h in
          subst IsCounted (some-injective _ _ shape)
            (count-le _ raw.input_tokens, count-le _ raw.output_tokens)
    ]

-- A name of at most `high` characters, all of a class, and at least one.
abbrev pub IsName : ℕ → (ℕ → Bool) → Text → Type 0
IsName high p s = (1 ≤ length s) × (length s ≤ high) × (all_chars p s ≡ true)

-- What may be kept of an API response.
pub record IsSafe (e : Usage) : Type 0 where
  pub provider : IsName 64 is_provider_char e.provider
  pub model : (s : Text) → e.model ≡ some s → IsName 200 is_model_char s
  pub key_slot : (n : ℕ) → e.key_slot ≡ some n → n < 10000
  pub status : (100 ≤ e.status) × (e.status ≤ 599)
  pub failed :
      (e.status < 200) ⊎ (300 ≤ e.status) → (e.input_tokens ≡ none) × (e.output_tokens ≡ none)
  pub counted : IsCounted e
