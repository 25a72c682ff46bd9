-- ===== src/Community/Providers/Read.antt =====
-- `readProviders` of apps/community/providers.mjs: the keys that an environment configures. `new URL`,
-- the JSON of COMMUNITY_LLM_PROVIDERS and `toLowerCase` are parameters.
use mathlib.Core.List.{reverse}
use open_claw_bot.Common.{
  ℕ, ◌+◌, ◌-◌, ◌++◌, Bool, false, not, ◌&&◌, ◌||◌, Option, none, some, List, [], ◌∷◌, length, take,
  drop, contains, is_empty, if◌then◌else◌, ◌==◌, nat_eq, or_else,
}
use open_claw_bot.Common.Maps.{Dict, get}
use open_claw_bot.Common.Texts.{Text, units, text_eq, starts_with}
use open_claw_bot.Community.Usage.{all_chars, is_digit}
use open_claw_bot.Community.Providers.{valid_model, ends_with}

pub record Url : Type 0 where
  pub href : Text
  pub protocol : Text
  pub hostname : Text
  pub username : Text
  pub password : Text
  pub search : Text
  pub hash : Text

-- The arguments of `add`, `none` where one is missing or no text.
pub record Item : Type 0 where
  pub name : Option Text
  pub base_url : Option Text
  pub api_key : Option Text
  pub model : Option Text

-- A provider of the list. A model that is not given is empty.
pub record Listed : Type 0 where
  pub name : Text
  pub url : Url
  pub base_url : Text
  pub api_key : Text
  pub slot : ℕ
  pub model : Text

abbrev pub known : List (Text × Text × Text)
known =
    (units "huggingface", units "https://router.huggingface.co/v1", units "HUGGINGFACE_TOKEN")
    ∷ (units "nvidia", units "https://integrate.api.nvidia.com/v1", units "NVIDIA_NIM_API_KEY")
    ∷ (units "cohere", units "https://api.cohere.ai/compatibility/v1", units "COHERE_API_KEY")
    ∷ (units "groq", units "https://api.groq.com/openai/v1", units "GROQ_API_KEY")
    ∷ (units "openrouter", units "https://openrouter.ai/api/v1", units "OPENROUTER_API_KEY")
    ∷ (units "openai", units "https://api.openai.com/v1", units "OPENAI_API_KEY")
    ∷ (units "xai", units "https://api.x.ai/v1", units "XAI_API_KEY")
    ∷ (
      units "gemini",
      units "https://generativelanguage.googleapis.com/v1beta/openai",
      units "GEMINI_API_KEY",
    )
    ∷ []

unfoldable pub includes : Text → Text → Bool
unfolding starts_with
includes [] part = is_empty part
includes (c ∷ s) part = starts_with (c ∷ s) part || includes s part

-- `hostnameName`, on a host in small letters.
unfoldable pub hostname_name : Text → Text → Text
unfolding includes
hostname_name host fallback =
    if includes host (units "groq")
    then units "groq"
    else if includes host (units "openrouter")
    then units "openrouter"
    else if includes host (units "x.ai")
    then units "xai"
    else if includes host (units "googleapis")
    then units "gemini"
    else if includes host (units "openai")
    then units "openai"
    else fallback

-- `replace(/\/+$/, "")` and `replace(/\/$/, "")`, from the end of a text.
unfoldable pub drop_slashes : Text → Text
drop_slashes [] = []
drop_slashes (c ∷ s) = if c == b'/' then drop_slashes s else c ∷ s

abbrev drop_slash : Text → Text
drop_slash [] = []
drop_slash (c ∷ s) = if c == b'/' then s else c ∷ s

abbrev pub is_local : Text → Bool
is_local host = contains (units "localhost" ∷ units "127.0.0.1" ∷ units "[::1]" ∷ []) host

-- May requests go to this address?
abbrev pub is_allowed_url : Url → Bool
is_allowed_url url =
    is_empty url.username
    && is_empty url.password
    && is_empty url.search
    && is_empty url.hash
    && (url.protocol == units "https:" || is_local url.hostname)

-- Two providers with one address and one key.
abbrev pub is_same : Url → Text → Listed → Bool
is_same url api_key p = p.url.href == url.href && p.api_key == api_key

-- `seen.has(fingerprint)`, and the update of the model that was seen.
abbrev pub is_seen : Url → Text → List Listed → Bool
is_seen url api_key [] = false
is_seen url api_key (p ∷ ps) = is_same url api_key p || is_seen url api_key ps

unfoldable pub set_model : Url → Text → Text → List Listed → List Listed
set_model url api_key model [] = []
set_model url api_key model (p ∷ ps) =
    let later = set_model url api_key model ps in
    if is_same url api_key p then record p { model = model } ∷ ps else p ∷ later

module _ (parse_url : Text → Option Url) (to_lower : Text → Text) where
  -- `add` behind its parse of the address.
  unfoldable pub add_url : Option Text → Text → Option Text → Option Url → List Listed → List Listed
  unfolding hostname_name valid_model set_model
  add_url name api_key model none ps = ps
  add_url name api_key model (some url) ps =
      let fallback = take 40 (or_else name (units "provider")) in
      let fresh : Listed = record {
        name = hostname_name (to_lower url.hostname) fallback;
        url = url;
        base_url = reverse (drop_slash (reverse url.href));
        api_key = api_key;
        slot = length ps;
        model = valid_model model;
      } in
      if not (is_allowed_url url)
      then ps
      else if is_seen url api_key ps
      then (if is_empty (valid_model model)
          then ps
          else set_model url api_key (valid_model model) ps)
      else ps ++ fresh ∷ []

  abbrev pub add_texts :
      Option Text → Option Text → Option Text → Option Text → List Listed → List Listed
  add_texts name none api_key model ps = ps
  add_texts name (some base_url) none model ps = ps
  add_texts name (some base_url) (some api_key) model ps =
      if is_empty base_url || is_empty api_key
      then ps
      else add_url name api_key model
          (parse_url (reverse (drop_slashes (reverse base_url)) ++ units "/")) ps

  unfoldable pub add : Item → List Listed → List Listed
  unfolding add_url drop_slashes
  add item ps =
      add_texts (if is_empty (or_else item.name []) then none else item.name) item.base_url
        item.api_key item.model ps

  abbrev pub add_all : List Item → List Listed → List Listed
  add_all [] ps = ps
  add_all (item ∷ items) ps = add_all items (add item ps)

-- A variable that is set and not empty.
unfoldable pub env_value : Dict Text Text → Text → Option Text
env_value env key = elim (get env key) [
  | none ↦ none
  | some v ↦ if is_empty v then none else some v
]

abbrev pub first_of : Option Text → Option Text → Option Text
first_of none b = b
first_of (some a) b = some a

-- `key.replace(/_(?:API_KEY|TOKEN)$/, "")`.
unfoldable pub key_prefix : Text → Text
unfolding ends_with
key_prefix key =
    if ends_with key (units "_API_KEY")
    then take (length key - 8) key
    else if ends_with key (units "_TOKEN")
    then take (length key - 6) key
    else key

-- The digits behind `key_` in the name of a numbered key.
unfoldable pub key_number : Text → Text → Option Text
unfolding starts_with all_chars is_digit
key_number key env_key =
    let digits = drop (length key + 1) env_key in
    if starts_with env_key (key ++ units "_") && not (is_empty digits) && all_chars is_digit digits
    then some digits
    else none

module _ (env : Dict Text Text) where
  numbered_item : Text → Text → Text → Text → Text → Option Text → List Item
  unfolding env_value key_prefix
  numbered_item name base_url key env_key value none = []
  numbered_item name base_url key env_key value (some n) =
      let prefix = key_prefix key in
      if is_empty value
      then []
      else record {
        name = some name;
        base_url = some (or_else (env_value env (prefix ++ units "_BASE_URL_" ++ n)) base_url);
        api_key = some value;
        model =
            first_of (env_value env (prefix ++ units "_MODEL_" ++ n))
              (env_value env (prefix ++ units "_MODEL"));
      }
        ∷ []

  numbered_items : Text → Text → Text → Dict Text Text → List Item
  unfolding numbered_item key_number
  numbered_items name base_url key [] = []
  numbered_items name base_url key ((env_key, value) ∷ rest) =
      numbered_item name base_url key env_key value (key_number key env_key)
      ++ numbered_items name base_url key rest

  plain_item : Text → Text → Text → Option Text → List Item
  unfolding env_value key_prefix
  plain_item name base_url key none = []
  plain_item name base_url key (some value) =
      record {
        name = some name;
        base_url = some (or_else (env_value env (key_prefix key ++ units "_BASE_URL")) base_url);
        api_key = some value;
        model = env_value env (key_prefix key ++ units "_MODEL");
      }
      ∷ []

  known_items : List (Text × Text × Text) → List Item
  unfolding plain_item numbered_items
  known_items [] = []
  known_items ((name, base_url, key) ∷ rest) =
      plain_item name base_url key (env_value env key)
      ++ numbered_items name base_url key env
      ++ known_items rest

  abbrev community_item : Option Text → Option Text → Option Text → List Item
  community_item none api_key model = []
  community_item (some base_url) none model = []
  community_item (some base_url) (some api_key) model =
      record {
        name = some (units "community");
        base_url = some base_url;
        api_key = some api_key;
        model = model;
      }
      ∷ []

  -- All calls of `add`, where `parse_items` reads the list of COMMUNITY_LLM_PROVIDERS.
  unfoldable pub configured_items : (Text → List Item) → List Item
  unfolding known_items env_value
  configured_items parse_items =
      community_item (env_value env (units "COMMUNITY_LLM_BASE_URL"))
        (env_value env (units "COMMUNITY_LLM_API_KEY"))
        (env_value env (units "COMMUNITY_LLM_MODEL"))
      ++ known_items known
      ++ (elim (env_value env (units "COMMUNITY_LLM_PROVIDERS")) as (λ o. List Item) [
        | none ↦ []
        | some json ↦ parse_items json
      ])

unfoldable pub read_providers :
    (Text → Option Url) → (Text → Text) → (Text → List Item) → Dict Text Text → List Listed
unfolding add configured_items
read_providers parse_url to_lower parse_items env =
    add_all parse_url to_lower (configured_items env parse_items) []
