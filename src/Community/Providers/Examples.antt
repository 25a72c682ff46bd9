-- ===== src/Community/Providers/Examples.antt =====
-- Three keys of two providers in apps/community/providers.mjs.
use open_claw_bot.Common.{
  take, drop, ℕ, ◌%◌, ◌≤◌, ◌≡◌, refl, ◌⊎◌, false, Option, none, some, List, [], ◌∷◌, All, length,
  map, ◌==◌, nat_eq, arith,
}
use open_claw_bot.Common.Maps.{Dict, get}
use open_claw_bot.Common.Texts.{starts_with, Text, units, text_eq, text_beq}
use open_claw_bot.Community.Usage.Store.{text_ltb}
use open_claw_bot.Community.Usage.{all_chars, is_digit}
use open_claw_bot.Community.Usage.Events.{is_model_char, is_provider_char, is_alphanumeric}
use open_claw_bot.Community.Providers.{
  Provider, Candidate, Pool, valid_model, ends_with, is_free, open_ids, first_in, least, model_of,
  candidates_of, prefer_direct, candidates, split_first, attempts_from, choose, effort_of,
  cooldown_duration, on_provider_failure,
}
use open_claw_bot.Community.Providers.Read.{
  Url, Listed, includes, hostname_name, drop_slashes, set_model, add_url, add, env_value,
  key_prefix, key_number, configured_items, read_providers,
}
use open_claw_bot.Community.Providers.Attempts.{IsFair, choose-IsFair}
use open_claw_bot.Community.Providers.Cooldown.{
  IsAllowed, candidates-IsAllowed, on_provider_failure-rests,
}

abbrev key : ℕ → Text → Provider
key slot name = record {
  name = name;
  base_url = [];
  api_key = [];
  slot = slot;
  configured_model = [];
}

abbrev pool : Pool
pool = record {
  providers = key 0 (units "groq") ∷ key 1 (units "groq") ∷ key 2 (units "openrouter") ∷ [];
  catalogs =
      (0, units "b" ∷ units "a" ∷ [])
      ∷ (1, units "a" ∷ [])
      ∷ (2, units "paid" ∷ units "x:free" ∷ [])
      ∷ [];
  cooldowns = [];
  cursor = 4;
}

abbrev failed : Candidate
failed = record { provider = key 1 (units "groq"); model = units "a"; effort = [] }

abbrev slots : Option (List Candidate) → List ℕ
slots none = []
slots (some cs) = map (λ c. c.provider.slot) cs

-- The cursor is at the second key: it leads, OpenRouter follows, and the first key is the last.
choose_runs : slots (choose pool 0 none none).0 ≡ 1 ∷ 2 ∷ 0 ∷ []
unfolding choose candidates candidates_of prefer_direct model_of open_ids is_free ends_with first_in
    least text_ltb split_first attempts_from valid_model effort_of get text_beq
choose_runs = refl

choose-IsFair_example :
    let cs = candidates pool 0 none none in
    ((cs ≡ []) × (choose pool 0 none none ≡ (none, pool)))
    ⊎ ((attempts : List Candidate) × (choose pool 0 none none
          ≡ (some attempts, record pool { cursor = 5 }))
        × IsFair (4 % length cs) cs attempts)
choose-IsFair_example = choose-IsFair pool 0 none none

candidates-IsAllowed_example :
    All
      (IsAllowed pool 0 (valid_model (some (units "a"))))
      (candidates pool 0 (some (units "a")) none)
candidates-IsAllowed_example = candidates-IsAllowed pool 0 (some (units "a")) none

on_provider_failure-rests_example :
    (30000 ≤ cooldown_duration 429 none)
    × (cooldown_duration 429 none ≤ 3600000)
    × All
        (λ c. (1 == c.provider.slot) ≡ false)
        (candidates (on_provider_failure 5 failed 429 none pool) 1000 none none)
unfolding cooldown_duration
on_provider_failure-rests_example =
    on_provider_failure-rests pool 5 failed 429 none 1000 none none (omega arith)

-- Two keys of one service, one of them twice, and an address that is not allowed.
abbrev address : Text → Option Url
address s = some (record {
  href = s;
  protocol = take 6 s;
  hostname = drop 8 s;
  username = [];
  password = [];
  search = [];
  hash = [];
})

abbrev environment : Dict Text Text
environment =
    (units "GROQ_API_KEY", units "k1")
    ∷ (units "GROQ_API_KEY_2", units "k2")
    ∷ (units "GROQ_API_KEY_3", units "k1")
    ∷ (units "GROQ_MODEL_3", units "m")
    ∷ (units "XAI_API_KEY", units "k4")
    ∷ (units "XAI_BASE_URL", units "http://x.ai")
    ∷ []

abbrev shown : Listed → Text × Text × Text
shown p = (p.name, p.api_key, p.model)

read_runs :
    map shown (read_providers address (λ s. s) (λ json. []) environment)
    ≡ (units "groq", units "k1", units "m") ∷ (units "groq", units "k2", []) ∷ []
unfolding read_providers configured_items env_value key_prefix key_number ends_with starts_with
    all_chars is_digit add add_url drop_slashes set_model hostname_name includes valid_model
    is_model_char is_provider_char is_alphanumeric get text_beq
read_runs = refl
