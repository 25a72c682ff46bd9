-- ===== src/Community/Providers/Cooldown.antt =====
-- Which keys apps/community/providers.mjs may try: never one that is cooling down, and only with a
-- model that its catalog lists.
use open_claw_bot.Common.{
  ℕ, ◌+◌, ◌≤◌, ◌<◌, ◌≡◌, refl, sym, ap, ◌∙◌, subst, inl, inr, Bool, true, false, not, ◌&&◌, Option,
  some, List, [], ◌∷◌, All, any, keep, contains, is_empty, if◌then◌else◌, ◌==◌, nat_eq, or_else,
  arith, Bool-cases,
}
use open_claw_bot.Common.Maps.{get, get-set}
use open_claw_bot.Common.Texts.{Text, units, text_eq, text_beq_iff}
use open_claw_bot.Community.Providers.{
  Provider, Candidate, Pool, openrouter, is_cooling, is_free, open_ids, first_in, least, model_of,
  candidates_of, prefer_direct, candidates, valid_model, effort_of, ends_with, cooldown_duration,
  on_provider_failure, preferred_models,
}

first_in-contains :
    (ids ms : List Text)
    → is_empty (first_in ids ms) ≡ false
    → contains ids (first_in ids ms) ≡ true
unfolding first_in
first_in-contains ids [] h = cc
first_in-contains ids (m ∷ ms) h = ground (arith, first_in-contains ids ms)

least-contains : (id : Text) (ids : List Text) → contains (id ∷ ids) (least (id ∷ ids)) ≡ true
unfolding least
least-contains id [] = ground (arith, text_beq_iff id id)
least-contains id (next ∷ ids) = ground (arith, least-contains next ids, text_beq_iff id id)

keep-contains :
    (p : Text → Bool) (ids : List Text) (m : Text)
    → contains (keep p ids) m ≡ true
    → (contains ids m ≡ true) × (p m ≡ true)
keep-contains p [] m h = cc
keep-contains p (id ∷ ids) m h = elim (Bool-cases (id == m)) [
  | inl same ↦ elim (Bool-cases (p id)) [
    | inl good ↦ (ground arith, ap p (sym ((text_beq_iff id m).0 same)) ∙ good)
    | inr bad ↦ (ground arith, (keep-contains p ids m (ground arith)).1)
  ]
  | inr different ↦
      let h' : contains (keep p ids) m ≡ true = ground arith in
      (ground (arith, keep-contains p ids m h'), (keep-contains p ids m h').1)
]

abbrev catalog : Pool → Provider → List Text
catalog s p = or_else (get s.catalogs p.slot) []

open_ids-contains :
    (s : Pool) (p : Provider) (m : Text)
    → contains (open_ids s p) m ≡ true
    → (contains (catalog s p) m ≡ true) × ((p.name == openrouter) ≡ true → is_free m ≡ true)
unfolding open_ids
open_ids-contains s p m h = elim (Bool-cases (p.name == openrouter)) [
  | inl router ↦
      let filtered : contains (keep is_free (catalog s p)) m ≡ true =
        sym (ap (λ b. contains (if b then keep is_free (catalog s p) else catalog s p) m) router)
        ∙ h in
      let kept = keep-contains is_free (catalog s p) m filtered in (kept.0, λ _. kept.1)
  | inr direct ↦ (
    sym (ap (λ b. contains (if b then keep is_free (catalog s p) else catalog s p) m) direct) ∙ h,
    λ router. cc,
  )
]

-- What holds of a key that may be tried.
pub record IsAllowed (s : Pool) (now : ℕ) (selected : Text) (c : Candidate) : Type 0 where
  pub cool : or_else (get s.cooldowns c.provider.slot) 0 ≤ now
  pub listed : contains (or_else (get s.catalogs c.provider.slot) []) c.model ≡ true
  pub chosen : is_empty selected ≡ false → c.model ≡ selected
  pub free :
      is_empty selected ≡ true → (c.provider.name == openrouter) ≡ true → is_free c.model ≡ true

-- The automatic choice, from ids that may be taken.
abbrev pick : Text → Text → List Text → Text
pick configured found ids =
    if contains ids configured then configured else if is_empty found then least ids else found

pick-contains :
    (configured : Text) (ids ms : List Text)
    → is_empty (pick configured (first_in ids ms) ids) ≡ false
    → contains ids (pick configured (first_in ids ms) ids) ≡ true
pick-contains configured [] ms h = unfold least in ground (arith, first_in-contains [] ms)
pick-contains configured (id ∷ ids) ms h =
    ground (arith, least-contains id ids, first_in-contains (id ∷ ids) ms)

model_of-listed :
    (s : Pool) (selected : Text) (p : Provider)
    → is_empty (model_of s selected p) ≡ false
    → (contains (catalog s p) (model_of s selected p) ≡ true)
      × (is_empty selected ≡ false → model_of s selected p ≡ selected)
      × (is_empty selected ≡ true
          → (p.name == openrouter) ≡ true
          → is_free (model_of s selected p) ≡ true)
unfolding model_of
model_of-listed s [] p h =
    let picked =
      open_ids-contains s p _
        (pick-contains p.configured_model (open_ids s p) preferred_models h) in
    (picked.0, (λ e. cc), (λ _. picked.1))
model_of-listed s (x ∷ xs) p h = elim (Bool-cases (contains (catalog s p) (x ∷ xs))) [
  | inl there ↦ rw there (there, (λ _. refl), (λ e. cc))
  | inr absent ↦
      (let none_left : true ≡ false =
          sym (ap (λ b. is_empty (if b then (x ∷ xs) else [])) absent) ∙ h in
        cc)
]

candidates_of-IsAllowed :
    (s : Pool) (now : ℕ) (selected effort : Text) (ps : List Provider)
    → All (IsAllowed s now selected) (candidates_of s now selected effort ps)
unfolding candidates_of
candidates_of-IsAllowed s now selected effort [] = tt
candidates_of-IsAllowed s now selected effort (p ∷ ps) =
    let rest = candidates_of-IsAllowed s now selected effort ps in
    elim (Bool-cases (is_cooling s now p)) [
      | inl hot ↦ rw hot rest
      | inr cold ↦ elim (Bool-cases (is_empty (model_of s selected p))) [
        | inl no_model ↦ rw cold (rw no_model rest)
        | inr has_model ↦
            let found = model_of-listed s selected p has_model in
            rw cold (
              rw has_model (
                record { cool = ground arith; listed = found.0; chosen = found.1; free = found.2 },
                rest,
              ))
      ]
    ]

All-keep :
    (P : Candidate → Type 0) (p : Candidate → Bool) (cs : List Candidate)
    → All P cs
    → All P (keep p cs)
All-keep P p [] h = tt
All-keep P p (c ∷ cs) h = elim (Bool-cases (p c)) [
  | inl stays ↦ rw stays (h.0, All-keep P p cs h.1)
  | inr goes ↦ rw goes (All-keep P p cs h.1)
]

-- No key is tried that is cooling down, whatever is asked for; each is tried with a model that its
-- catalog lists. With a model selected it is that one, and without one OpenRouter is only tried with
-- a free model.
pub candidates-IsAllowed :
    (s : Pool) (now : ℕ) (model_id effort : Option Text)
    → All (IsAllowed s now (valid_model model_id)) (candidates s now model_id effort)
unfolding candidates prefer_direct
candidates-IsAllowed s now model_id effort =
    let selected = valid_model model_id in
    let all = candidates_of-IsAllowed s now selected (effort_of effort) s.providers in
    elim (Bool-cases (
      not (is_empty selected)
      && not (ends_with selected (units ":free"))
      && any (λ c. not (c.provider.name == openrouter))
          (candidates_of s now selected (effort_of effort) s.providers))) [
            | inl direct ↦
                rw (direct, candidates)
                  (All-keep _ (λ c. not (c.provider.name == openrouter)) _ all)
            | inr mixed ↦ rw (mixed, candidates) all
          ]

cooldown_duration-bounds :
    (status : ℕ) (retry_after : Option ℕ)
    → (30000 ≤ cooldown_duration status retry_after)
      × (cooldown_duration status retry_after ≤ 3600000)
unfolding cooldown_duration
cooldown_duration-bounds status retry_after = (ground arith, ground arith)

All-map :
    (P Q : Candidate → Type 0) (cs : List Candidate)
    → ((c : Candidate) → P c → Q c)
    → All P cs
    → All Q cs
All-map P Q [] f h = tt
All-map P Q (c ∷ cs) f h = (f c h.0, All-map P Q cs f h.1)

-- A key that has failed rests: for at least 30 seconds and at most an hour the failed slot is
-- marked, and until then no choice, whatever it asks for, tries it.
pub on_provider_failure-rests :
    (s : Pool) (now : ℕ) (c : Candidate) (status : ℕ) (retry_after : Option ℕ) (later : ℕ)
    (model_id effort : Option Text)
    → later < now + cooldown_duration status retry_after
    → (30000 ≤ cooldown_duration status retry_after)
      × (cooldown_duration status retry_after ≤ 3600000)
      × All
          (λ other_key. (c.provider.slot == other_key.provider.slot) ≡ false)
          (candidates (on_provider_failure now c status retry_after s) later model_id effort)
on_provider_failure-rests s now c status retry_after later model_id effort soon =
    let s' = on_provider_failure now c status retry_after s in
    let bounds = cooldown_duration-bounds status retry_after in
    (
      bounds.0,
      bounds.1,
      All-map (IsAllowed s' later (valid_model model_id)) _ _ (λ d allowed. rested d allowed)
          (candidates-IsAllowed s' later model_id effort),
    )
  where
    rested :
        (d : Candidate)
        → IsAllowed (on_provider_failure now c status retry_after s) later (valid_model model_id) d
        → (c.provider.slot == d.provider.slot) ≡ false
    rested d allowed = elim (Bool-cases (c.provider.slot == d.provider.slot)) [
      | inr different ↦ different
      | inl same ↦
          let mark : get (on_provider_failure now c status retry_after s).cooldowns d.provider.slot
              ≡ some (now + cooldown_duration status retry_after) =
            unfold on_provider_failure in
            get-set s.cooldowns c.provider.slot d.provider.slot _ ∙ rw same refl in
          let over = subst (λ o. or_else o 0 ≤ later) mark allowed.cool in absurd (omega arith)
    ]
