-- ===== src/Community/Providers.antt =====
-- apps/community/providers.mjs: which API key answers a turn. The environment's configured models
-- and the runtime's clock enter as values; a provider's catalog is what `listModels` found last.
pub mod Read
pub mod Configured
pub mod Attempts
pub mod Cooldown
mod Examples
use open_claw_bot.Common.{
  ℕ, ◌+◌, ◌-◌, ◌%◌, min, max, ◌++◌, Bool, true, false, not, ◌&&◌, ◌||◌, Option, none, some, List,
  [], ◌∷◌, map, length, take, drop, keep, any, contains, is_empty, if◌then◌else◌, ◌==◌, leb, ltb,
  nat_eq, or_else,
}
use open_claw_bot.Common.Maps.{Dict, get, set}
use open_claw_bot.Common.Texts.{Text, units, text_eq, starts_with}
use open_claw_bot.Community.Usage.{all_chars}
use open_claw_bot.Community.Usage.Events.{is_model_char}
use open_claw_bot.Community.Usage.Store.{text_ltb}

abbrev pub efforts : List Text
efforts = units "low" ∷ units "medium" ∷ units "high" ∷ units "xhigh" ∷ []

abbrev preferred_models : List Text
preferred_models =
    units "openai/gpt-oss-120b"
    ∷ units "openai/gpt-oss-20b"
    ∷ units "gemini-3.8-flash"
    ∷ units "gemini-3.5-flash"
    ∷ units "gemini-2.5-flash"
    ∷ units "command-a-03-2025"
    ∷ []

-- A provider with the valid model that is configured for it, which may be empty.
pub record Provider : Type 0 where
  pub name : Text
  pub base_url : Text
  pub api_key : Text
  pub slot : ℕ
  pub configured_model : Text

pub record Candidate : Type 0 where
  pub provider : Provider
  pub model : Text
  pub effort : Text

pub record Pool : Type 0 where
  pub providers : List Provider
  pub catalogs : Dict ℕ (List Text)
  pub cooldowns : Dict ℕ ℕ
  pub cursor : ℕ

-- `validModel`; `none` is a value that is no text.
unfoldable pub valid_model : Option Text → Text
unfolding all_chars is_model_char
valid_model none = []
valid_model (some s) =
    if leb 1 (length s) && leb (length s) 200 && all_chars is_model_char s then s else []

unfoldable pub ends_with : Text → Text → Bool
ends_with s suffix = leb (length suffix) (length s) && (drop (length s - length suffix) s == suffix)

unfoldable pub is_free : Text → Bool
unfolding ends_with
is_free id = ends_with id (units ":free") || id == units "openrouter/free"

-- `ids.find(id => ...)` and `ids.sort()[0]`, empty where there is none.
unfoldable pub first_in : List Text → List Text → Text
first_in ids [] = []
first_in ids (m ∷ ms) = if contains ids m then m else first_in ids ms

unfoldable pub least : List Text → Text
unfolding text_ltb
least [] = []
least (id ∷ []) = id
least (id ∷ next ∷ ids) = let rest = least (next ∷ ids) in if text_ltb rest id then rest else id

abbrev pub openrouter : Text
openrouter = units "openrouter"

abbrev pub is_cooling : Pool → ℕ → Provider → Bool
is_cooling s now p = ltb now (or_else (get s.cooldowns p.slot) 0)

-- The ids that the automatic choice may take: of OpenRouter only the free ones.
unfoldable pub open_ids : Pool → Provider → List Text
unfolding is_free
open_ids s p =
    let ids = or_else (get s.catalogs p.slot) [] in
    if p.name == openrouter then keep is_free ids else ids

-- The model that a provider would answer with, empty if none.
unfoldable pub model_of : Pool → Text → Provider → Text
unfolding open_ids first_in least
model_of s selected p =
    let ids = open_ids s p in
    let found = first_in ids preferred_models in
    if is_empty selected
    then (if contains ids p.configured_model
        then p.configured_model
        else if is_empty found
        then least ids
        else found)
    else if contains (or_else (get s.catalogs p.slot) []) selected
    then selected
    else []

unfoldable pub effort_of : Option Text → Text
effort_of none = []
effort_of (some e) = if contains efforts e then e else []

unfoldable pub candidates_of : Pool → ℕ → Text → Text → List Provider → List Candidate
unfolding model_of
candidates_of s now selected effort [] = []
candidates_of s now selected effort (p ∷ ps) =
    let rest = candidates_of s now selected effort ps in
    let model = model_of s selected p in
    if is_cooling s now p
    then rest
    else if is_empty model
    then rest
    else record { provider = p; model = model; effort = effort } ∷ rest

-- A paid model is left to the other providers where one of them has it.
unfoldable pub prefer_direct : Text → List Candidate → List Candidate
unfolding ends_with
prefer_direct selected cs =
    let is_direct : Candidate → Bool = λ c. not (c.provider.name == openrouter) in
    if not (is_empty selected) && not (ends_with selected (units ":free")) && any is_direct cs
    then keep is_direct cs
    else cs

-- The loop that tries one key of each provider first: `first` and `rest`, given the names seen.
unfoldable pub split_first : List Text → List Candidate → List Candidate × List Candidate
split_first seen [] = ([], [])
split_first seen (c ∷ cs) =
    let (first, rest) = split_first (c.provider.name ∷ seen) cs in
    if contains seen c.provider.name then (first, c ∷ rest) else (c ∷ first, rest)

unfoldable pub attempts_from : ℕ → List Candidate → List Candidate
unfolding split_first
attempts_from start cs =
    let (first, rest) = split_first [] (drop start cs ++ take start cs) in first ++ rest

unfoldable pub candidates : Pool → ℕ → Option Text → Option Text → List Candidate
unfolding candidates_of prefer_direct valid_model effort_of
candidates s now model_id effort =
    let selected = valid_model model_id in
    prefer_direct selected (candidates_of s now selected (effort_of effort) s.providers)

-- `choose`: the attempts, of which the first is the choice, and the pool after it.
unfoldable pub choose : Pool → ℕ → Option Text → Option Text → Option (List Candidate) × Pool
unfolding candidates attempts_from
choose s now model_id effort =
    let cs = candidates s now model_id effort in
    if is_empty cs
    then (none, s)
    else (some (attempts_from (s.cursor % length cs) cs), record s { cursor = s.cursor + 1 })

-- `retryAfter || 60000`.
abbrev retry_delay : Option ℕ → ℕ
retry_delay none = 60000
retry_delay (some n) = if leb 1 n then n else 60000

unfoldable pub cooldown_duration : ℕ → Option ℕ → ℕ
cooldown_duration status retry_after =
    if status == 401 || status == 403
    then 3600000
    else max 30000 (min 3600000 (retry_delay retry_after))

unfoldable pub on_provider_failure : ℕ → Candidate → ℕ → Option ℕ → Pool → Pool
unfolding cooldown_duration
on_provider_failure now c status retry_after s = record s {
  cooldowns = set s.cooldowns c.provider.slot (now + cooldown_duration status retry_after);
}
