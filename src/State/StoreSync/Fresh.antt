-- ===== src/State/StoreSync/Fresh.antt =====
-- Etags of packages/state/src/agent-store-sync.ts: one etag, one version.
use open_claw_bot.Common.{
  ℕ, ◌+◌, ◌≤◌, ◌<◌, ◌≡◌, refl, sym, ap, ◌∙◌, subst, inl, inr, ◌⊎◌, Option, none, some, List, [],
  ◌∷◌, ◌==◌, arith, Bool-cases,
}
use open_claw_bot.Common.Texts.{Text, text_eq}
use open_claw_bot.Common.Decimal.{decimal-injective}
use open_claw_bot.Common.Maps.{get, get-set}
use open_claw_bot.State.StoreSync.{
  BcsResource, BcsBackend, etag_text, is_etag, swept, with_resource, put_on, put_resource, lock,
  lock_on, unlock, BcsCall, gets, puts, locks_for, unlocks, bcs_call, bcs_calls, etag_of, expired,
  lock_held, owned, create_in_memory_bcs_backend,
}

tail_of : Text → Text
tail_of [] = []
tail_of (c ∷ s) = s

etag_text-injective : (m n : ℕ) → etag_text m ≡ etag_text n → m ≡ n
unfolding etag_text tail_of
etag_text-injective m n h =
    decimal-injective m n (ap (λ t. tail_of (tail_of (tail_of (tail_of (tail_of t))))) h)

pub none-ne-some {ℓ} : {A : Type ℓ} {a : A} → none ≡ some a → ⊥
none-ne-some h = cc

module _ {V : Type 0} where
  -- Every etag of a resource was made by the counter.
  abbrev pub IsSound : BcsBackend V → Type 0
  IsSound b =
      (id : Text) (r : BcsResource V)
      → get b.resources id ≡ some r
      → (n : ℕ) × (r.etag ≡ etag_text n) × (n ≤ b.etag_counter)

  -- A resource is as it was, or has an etag that was not made before.
  abbrev pub Renewed : ℕ → Option (BcsResource V) → Option (BcsResource V) → Type 0
  Renewed counter was is =
      (is ≡ was)
      ⊎ ((n : ℕ) × (r : BcsResource V) × (is ≡ some r) × (r.etag ≡ etag_text n) × (counter < n))

  -- A call stores a value, or leaves the resources as they are.
  abbrev Kept : BcsBackend V → BcsBackend V → Type 0
  Kept b c =
      ((c.resources ≡ b.resources) × (c.etag_counter ≡ b.etag_counter))
      ⊎ ((id : Text) × (value : V) × (c ≡ with_resource id value b))

  put_resource-Kept :
      (o : Option (BcsResource V)) (id : Text) (value : V) (expected : Option Text)
      (b : BcsBackend V)
      → Kept b (put_on o id value expected b).1
  unfolding put_on
  put_resource-Kept none id value none b = inr (id, value, refl)
  put_resource-Kept none id value (some e) b = inl (refl, refl)
  put_resource-Kept (some r) id value expected b = elim (Bool-cases (is_etag r.etag expected)) [
    | inl same ↦ rw same (inr (id, value, refl))
    | inr other ↦ rw other (inl (refl, refl))
  ]

  call-Kept : (c : BcsCall V) (b : BcsBackend V) → Kept b (bcs_call c b)
  unfolding bcs_call swept put_resource lock lock_on unlock
  call-Kept (gets id now) b = elim (Bool-cases (expired (get b.locks id) now)) [
    | inl over ↦ rw over (inl (refl, refl))
    | inr valid ↦ rw valid (inl (refl, refl))
  ]
  call-Kept (puts id value expected) b = put_resource-Kept (get b.resources id) id value expected b
  call-Kept (locks_for id owner ttl now) b = elim (Bool-cases (lock_held (get b.locks id) now)) [
    | inl taken ↦ rw (taken, bcs_call) (inl (refl, refl))
    | inr free ↦ rw (free, bcs_call) (inl (refl, refl))
  ]
  call-Kept (unlocks id owner) b = elim (Bool-cases (owned (get b.locks id) owner)) [
    | inl own ↦ rw own (inl (refl, refl))
    | inr other ↦ rw other (inl (refl, refl))
  ]

  -- A version that was stored behind `b`, seen from before it.
  with_resource-Renewed :
      (b : BcsBackend V) (id key : Text) (value : V)
      → Renewed b.etag_counter (get b.resources id) (get (with_resource key value b).resources id)
  unfolding with_resource
  with_resource-Renewed b id key value =
      let e = etag_text (b.etag_counter + 1) in
      let place = get-set b.resources key id (record { etag = e; value = value }) in
      elim (Bool-cases (key == id)) [
        | inl same ↦ inr (
          b.etag_counter + 1,
          record { etag = e; value = value },
          place ∙ rw same refl,
          refl,
          omega arith,
        )
        | inr other ↦ inl (place ∙ rw other refl)
      ]

  counter_grows : (b c : BcsBackend V) → Kept b c → b.etag_counter ≤ c.etag_counter
  unfolding with_resource
  counter_grows b c (inl (same, count)) = omega (arith, count)
  counter_grows b c (inr (id, value, made)) = rw made (omega arith)

  Kept-Renewed :
      (b c : BcsBackend V) (id : Text)
      → Kept b c
      → Renewed b.etag_counter (get b.resources id) (get c.resources id)
  Kept-Renewed b c id (inl (same, count)) = inl (ap (λ m. get m id) same)
  Kept-Renewed b c id (inr (key, value, made)) = rw made (with_resource-Renewed b id key value)

  then-Renewed :
      (m n : ℕ) (was mid is : Option (BcsResource V))
      → m ≤ n
      → Renewed m was mid
      → Renewed n mid is
      → Renewed m was is
  then-Renewed m n was mid is grows first (inr (k, r, now, tag, late)) =
      inr (k, r, now, tag, omega arith)
  then-Renewed m n was mid is grows (inl same) (inl still) = inl (still ∙ same)
  then-Renewed m n was mid is grows (inr (k, r, now, tag, late)) (inl still) =
      inr (k, r, still ∙ now, tag, late)

  pub calls-Renewed :
      (cs : List (BcsCall V)) (b : BcsBackend V) (id : Text)
      → Renewed b.etag_counter (get b.resources id) (get (bcs_calls cs b).resources id)
  unfolding bcs_calls
  calls-Renewed [] b id = inl refl
  calls-Renewed (c ∷ cs) b id =
      let kept = call-Kept c b in
      then-Renewed b.etag_counter (bcs_call c b).etag_counter (get b.resources id)
        (get (bcs_call c b).resources id) (get (bcs_calls cs (bcs_call c b)).resources id)
        (counter_grows b (bcs_call c b) kept) (Kept-Renewed b (bcs_call c b) id kept)
        (calls-Renewed cs (bcs_call c b) id)

  with_resource-IsSound :
      (b : BcsBackend V) (key : Text) (value : V) → IsSound b → IsSound (with_resource key value b)
  unfolding with_resource
  with_resource-IsSound b key value sound id r here =
      let made : BcsResource V = record { etag = etag_text (b.etag_counter + 1); value = value } in
      let place = get-set b.resources key id made in
      elim (Bool-cases (key == id)) [
        | inl same ↦
            (let found : some made ≡ some r = sym (place ∙ rw same refl) ∙ here in
              let new : made ≡ r = cc in
              (b.etag_counter + 1, ap (λ x. x.etag) (sym new), omega arith))
        | inr other ↦
            (let old = sound id r (sym (place ∙ rw other refl) ∙ here) in
              (old.0, old.1, omega (arith, old.2)))
      ]

  Kept-IsSound : (b c : BcsBackend V) → Kept b c → IsSound b → IsSound c
  Kept-IsSound b c (inl (same, count)) sound id r here =
      let old = sound id r (sym (ap (λ m. get m id) same) ∙ here) in
      (old.0, old.1, omega (arith, count, old.2))
  Kept-IsSound b c (inr (key, value, made)) sound id r here =
      subst IsSound (sym made) (with_resource-IsSound b key value sound) id r here

  pub calls-IsSound :
      (cs : List (BcsCall V)) (b : BcsBackend V) → IsSound b → IsSound (bcs_calls cs b)
  unfolding bcs_calls
  calls-IsSound [] b sound = sound
  calls-IsSound (c ∷ cs) b sound =
      calls-IsSound cs (bcs_call c b) (Kept-IsSound b (bcs_call c b) (call-Kept c b) sound)

  pub new-IsSound : IsSound create_in_memory_bcs_backend
  unfolding create_in_memory_bcs_backend get
  new-IsSound id r here = (let bad : none ≡ some r = here in absurd (none-ne-some bad))

  same_tag :
      (counter : ℕ) (was is : Option (BcsResource V))
      → Renewed counter was is
      → ((r : BcsResource V) → was ≡ some r → (n : ℕ) × (r.etag ≡ etag_text n) × (n ≤ counter))
      → etag_of is ≡ etag_of was
      → is ≡ was
  same_tag counter was is (inl still) sound same = still
  same_tag counter none is (inr (n, r, now, tag, late)) sound same =
      absurd (none-ne-some (sym same ∙ ap etag_of now))
  same_tag counter (some q) is (inr (n, r, now, tag, late)) sound same =
      let old = sound q refl in
      let tags : some r.etag ≡ some q.etag = ap etag_of (sym now) ∙ same in
      let texts : r.etag ≡ q.etag = cc in
      let numbers : n ≡ old.0 = etag_text-injective n old.0 (sym tag ∙ texts ∙ old.1) in
      absurd (omega (arith, numbers, old.2))

  -- A version whose etag is that of an older one is that version.
  pub same_etag :
      (b : BcsBackend V) (cs : List (BcsCall V)) (id : Text)
      → IsSound b
      → etag_of (get (bcs_calls cs b).resources id) ≡ etag_of (get b.resources id)
      → get (bcs_calls cs b).resources id ≡ get b.resources id
  same_etag b cs id sound same =
      same_tag b.etag_counter (get b.resources id) (get (bcs_calls cs b).resources id)
        (calls-Renewed cs b id) (sound id) same
