-- ===== src/State/StoreSync/Current.antt =====
-- No update of packages/state/src/agent-store-sync.ts is lost.
use open_claw_bot.Common.{
  ℕ, ◌+◌, ◌≡◌, ◌≢◌, refl, sym, ap, ◌∙◌, inl, inr, ◌⊎◌, true, false, Option, none, some, List, ◌∷◌,
  ◌==◌, Bool-cases,
}
use open_claw_bot.Common.Texts.{Text, text_eq}
use open_claw_bot.Common.Maps.{get}
use open_claw_bot.State.StoreSync.{
  BcsResource, BcsBackend, PutResult, etag_text, with_resource, put_on, put_resource, BcsCall, gets,
  bcs_call, bcs_calls, Updated, updated, bcs_conflict, Meanwhile, etag_of, resource_value, current,
  retried, resolve, first_put, update_resource, create_in_memory_bcs_backend,
}
use open_claw_bot.State.StoreSync.Fresh.{
  IsSound, calls-IsSound, new-IsSound, same_etag, none-ne-some,
}

module _ {V : Type 0} where
  -- A write that is made, and one that is refused.
  abbrev written_by : Text → V → BcsBackend V → PutResult × BcsBackend V
  written_by id v b =
      (record { etag = etag_text (b.etag_counter + 1); conflict = false }, with_resource id v b)

  abbrev refused_with : Text → BcsBackend V → PutResult × BcsBackend V
  refused_with etag b = (record { etag = etag; conflict = true }, b)

  abbrev PutCases : Option (BcsResource V) → Text → V → Option Text → BcsBackend V → Type 0
  PutCases o id v expected b =
      ((put_on o id v expected b ≡ written_by id v b) × (etag_of o ≡ expected))
      ⊎ ((etag : Text) × (put_on o id v expected b ≡ refused_with etag b) × (etag_of o ≢ expected))

  put_resource-cases :
      (o : Option (BcsResource V)) (id : Text) (v : V) (expected : Option Text) (b : BcsBackend V)
      → PutCases o id v expected b
  unfolding put_on
  put_resource-cases none id v none b = inl (refl, refl)
  put_resource-cases none id v (some e) b = inr (e, refl, λ same. none-ne-some same)
  put_resource-cases (some r) id v none b = inr (r.etag, refl, λ same. none-ne-some (sym same))
  put_resource-cases (some r) id v (some e) b = elim (Bool-cases (r.etag == e)) [
    | inl same ↦ rw same (inl (refl, ap some ((text_eq.equal_iff r.etag e).0 same)))
    | inr other ↦ rw other (
        inr (
          r.etag,
          refl,
          λ same.
              let texts : r.etag ≡ e = cc in
              let bad : true ≡ false = sym ((text_eq.equal_iff r.etag e).1 texts) ∙ other in cc,
        ))
  ]

  -- The result of an update that makes its write on `b`.
  abbrev pub Writes : Updated V × BcsBackend V → Text → V → ℕ → BcsBackend V → Type 0
  Writes result id v k b =
      result ≡ (updated (etag_text (b.etag_counter + 1)) v k, with_resource id v b)

  -- What `put` on `b` with the etag of `o` is worth, if one etag is one version.
  abbrev Versions : Text → Option (BcsResource V) → BcsBackend V → Type 0
  Versions id o b = etag_of (get b.resources id) ≡ etag_of o → get b.resources id ≡ o

  retry-cases :
      (null : V) (merge : V → V → V) (id : Text) (local : V) (o : Option (BcsResource V))
      (b : BcsBackend V)
      → Versions id o b
      → Writes
          (retried id
            (merge (resource_value null o) local)
            (put_resource id (merge (resource_value null o) local) (etag_of o) b))
          id
          (merge (current null id b) local)
          1
          b
        ⊎ ((retried id
                (merge (resource_value null o) local)
                (put_resource id (merge (resource_value null o) local) (etag_of o) b)
              ≡ (bcs_conflict, b))
            × (get b.resources id ≢ o))
  unfolding put_resource retried
  retry-cases null merge id local o b one =
      let merged = merge (resource_value null o) local in
      elim (put_resource-cases (get b.resources id) id merged (etag_of o) b) [
        | inl (made, etags) ↦ inl (
            ap (retried id merged) made
            ∙ ap (λ v. (updated (etag_text (b.etag_counter + 1)) v 1, with_resource id v b))
                (ap (λ x. merge (resource_value null x) local) (sym (one etags))))
        | inr (etag, refused, differ) ↦
            inr (ap (retried id merged) refused, λ same. differ (ap etag_of same))
      ]

  first-cases :
      (null : V) (merge : V → V → V) (id : Text) (mutate : V → V) (m : Meanwhile V)
      (o : Option (BcsResource V)) (b : BcsBackend V)
      → Versions id o b
      → Writes
          (first_put null merge id
            (mutate (resource_value null o))
            m
            (put_resource id (mutate (resource_value null o)) (etag_of o) b))
          id
          (mutate (current null id b))
          0
          b
        ⊎ ((first_put null merge id
                (mutate (resource_value null o))
                m
                (put_resource id (mutate (resource_value null o)) (etag_of o) b)
              ≡ resolve null merge id (mutate (resource_value null o)) m b)
            × (get b.resources id ≢ o))
  unfolding put_resource first_put
  first-cases null merge id mutate m o b one =
      let local = mutate (resource_value null o) in
      elim (put_resource-cases (get b.resources id) id local (etag_of o) b) [
        | inl (made, etags) ↦ inl (
            ap (first_put null merge id local m) made
            ∙ ap (λ v. (updated (etag_text (b.etag_counter + 1)) v 0, with_resource id v b))
                (ap (λ x. mutate (resource_value null x)) (sym (one etags))))
        | inr (etag, refused, differ) ↦
            inr (ap (first_put null merge id local m) refused, λ same. differ (ap etag_of same))
      ]

  -- The backend when an update writes, when it reads again, and when it writes again.
  abbrev pub at_put : Text → Meanwhile V → BcsBackend V → BcsBackend V
  at_put id m b = bcs_calls (gets id m.read_at ∷ m.before_put) b

  abbrev pub at_reread : Text → Meanwhile V → BcsBackend V → BcsBackend V
  at_reread id m b = bcs_calls m.before_reread (at_put id m b)

  abbrev pub at_retry : Text → Meanwhile V → BcsBackend V → BcsBackend V
  at_retry id m b = bcs_calls (gets id m.reread_at ∷ m.before_retry) (at_reread id m b)

  abbrev pub version : Text → BcsBackend V → Option (BcsResource V)
  version id b = get b.resources id

  resolve-cases :
      (null : V) (merge : V → V → V) (id : Text) (local : V) (m : Meanwhile V) (b : BcsBackend V)
      → IsSound (at_reread id m b)
      → Writes
          (resolve null merge id local m (at_put id m b))
          id
          (merge (current null id (at_retry id m b)) local)
          1
          (at_retry id m b)
        ⊎ ((resolve null merge id local m (at_put id m b) ≡ (bcs_conflict, at_retry id m b))
            × (version id (at_retry id m b) ≢ version id (at_reread id m b)))
  unfolding resolve bcs_calls bcs_call
  resolve-cases null merge id local m b sound =
      retry-cases null merge id local (version id (at_reread id m b)) (at_retry id m b)
        (same_etag (at_reread id m b) (gets id m.reread_at ∷ m.before_retry) id sound)

  -- How an update that begins on `b` may end.
  abbrev pub Settles :
      V
      → (V → V → V)
      → Text
      → (V → V)
      → Meanwhile V
      → BcsBackend V
      → Updated V × BcsBackend V
      → Type 0
  Settles null merge id mutate m b result =
      Writes result id (mutate (current null id (at_put id m b))) 0 (at_put id m b)
      ⊎ ((version id (at_put id m b) ≢ version id b)
          × (Writes result id
                (merge (current null id (at_retry id m b)) (mutate (current null id b))) 1
                (at_retry id m b)
              ⊎ ((result ≡ (bcs_conflict, at_retry id m b))
                  × (version id (at_retry id m b) ≢ version id (at_reread id m b)))))

  sound-Settles :
      (null : V) (merge : V → V → V) (id : Text) (mutate : V → V) (m : Meanwhile V)
      (b : BcsBackend V)
      → IsSound b
      → Settles null merge id mutate m b (update_resource null merge id mutate m b)
  unfolding update_resource bcs_calls bcs_call
  sound-Settles null merge id mutate m b sound =
      elim (first-cases null merge id mutate m (version id b) (at_put id m b)
        (same_etag b (gets id m.read_at ∷ m.before_put) id sound)) [
          | inl made ↦ inl made
          | inr (next, differ) ↦
              (let reread =
                  calls-IsSound m.before_reread (at_put id m b)
                    (calls-IsSound (gets id m.read_at ∷ m.before_put) b sound) in
                elim (resolve-cases null merge id (mutate (current null id b)) m b reread) [
                  | inl made ↦ inr (differ, inl (next ∙ made))
                  | inr (thrown, again) ↦ inr (differ, inr (next ∙ thrown, again))
                ])
        ]

  -- Whatever clients called before, and whatever others call at each await of an `update`, it ends in
  -- one of three ways. It writes what `mutate` makes of the value that is there at the moment of the
  -- write; or, if another version came since its read, it writes what `merge` makes of the value that
  -- is there at the moment of the second write and of its own value; or it throws and writes nothing,
  -- and then another version came each time.
  pub update_resource-current :
      (null : V) (merge : V → V → V) (id : Text) (mutate : V → V) (m : Meanwhile V)
      (cs : List (BcsCall V))
      → Settles null merge id mutate m
          (bcs_calls cs create_in_memory_bcs_backend)
          (update_resource null merge id mutate m (bcs_calls cs create_in_memory_bcs_backend))
  update_resource-current null merge id mutate m cs =
      sound-Settles null merge id mutate m (bcs_calls cs create_in_memory_bcs_backend)
        (calls-IsSound cs create_in_memory_bcs_backend new-IsSound)
