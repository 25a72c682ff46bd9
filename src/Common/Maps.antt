-- ===== src/Common/Maps.antt =====
-- The source's `Map`: an association list in insertion order. `set` on a key that is present
-- keeps its place, as in the source's language.
use mathlib.Core.Path.{◌≡◌, refl}
use mathlib.Core.Bool.{true, false}
use mathlib.Core.List.{List, [], ◌∷◌}
use mathlib.Core.Option.{Option, none, some}
use mathlib.Core.Logic.{inl, inr}
use mathlib.Core.Path.{◌∙◌}
use native.Mathlib.Omega.{arith}
use open_claw_bot.Common.Tests.{if◌then◌else◌, Eq, ◌==◌, Bool-cases}

abbrev pub Dict {ℓ κ} : Type ℓ → Type κ → Type (ℓ ⊔ κ)
Dict K V = List (K × V)

pub ==_refl {ℓ} : {K : Type ℓ} ⦃e : Eq K⦄ (k : K) → (k == k) ≡ true
==_refl ⦃e⦄ k = (e.equal_iff k k).1 refl

pub ne_sym {ℓ} : {K : Type ℓ} ⦃e : Eq K⦄ (j k : K) → (j == k) ≡ false → (k == j) ≡ false
ne_sym ⦃e⦄ j k h = ground (arith, e.equal_iff j k, e.equal_iff k j)

module _ {ℓ κ} {K : Type ℓ} ⦃e : Eq K⦄ {V : Type κ} where
  unfoldable pub get : Dict K V → K → Option V
  get [] k = none
  get ((j, v) ∷ m) k = if j == k then some v else get m k

  unfoldable pub set : Dict K V → K → V → Dict K V
  set [] k v = (k, v) ∷ []
  set ((j, w) ∷ m) k v = if j == k then (j, v) ∷ m else (j, w) ∷ set m k v

  unfoldable pub delete : Dict K V → K → Dict K V
  delete [] k = []
  delete ((j, w) ∷ m) k = if j == k then delete m k else (j, w) ∷ delete m k

  pub get-set :
      (m : Dict K V) (k j : K) (v : V) → get (set m k v) j ≡ (if k == j then some v else get m j)
  unfolding get set
  get-set [] k j v = refl
  get-set ((i, w) ∷ m) k j v =
      ground (arith, e.equal_iff k j, e.equal_iff i k, e.equal_iff i j, get-set m k j v)

  pub get-delete :
      (m : Dict K V) (k j : K) → get (delete m k) j ≡ (if k == j then none else get m j)
  unfolding get delete
  get-delete [] k j = ground arith
  get-delete ((i, w) ∷ m) k j =
      ground (arith, e.equal_iff k j, e.equal_iff i k, e.equal_iff i j, get-delete m k j)

  pub get-set_self : (m : Dict K V) (k : K) (v : V) → get (set m k v) k ≡ some v
  get-set_self m k v = rw (get-set m k k v, ==_refl k)

  pub get-set_other :
      (m : Dict K V) (k j : K) (v : V) → (k == j) ≡ false → get (set m k v) j ≡ get m j
  get-set_other m k j v h = rw (get-set m k j v, h)

  pub get-delete_self : (m : Dict K V) (k : K) → get (delete m k) k ≡ none
  get-delete_self m k = rw (get-delete m k k, ==_refl k)

  pub get-delete_other : (m : Dict K V) (k j : K) → (k == j) ≡ false → get (delete m k) j ≡ get m j
  get-delete_other m k j h = rw (get-delete m k j, h)

  -- No key stands twice, as in a `Map`.
  abbrev pub IsDistinct : Dict K V → Type κ
  IsDistinct [] = Unit
  IsDistinct ((k, v) ∷ m) = (get m k ≡ none) × IsDistinct m

  pub set-IsDistinct : (m : Dict K V) (k : K) (v : V) → IsDistinct m → IsDistinct (set m k v)
  unfolding set get
  set-IsDistinct [] k v h = (refl, tt)
  set-IsDistinct ((j, w) ∷ m) k v (free, others) = elim (Bool-cases (j == k)) [
    | inl same ↦ rw same (free, others)
    | inr other ↦
        rw other (get-set_other m k j v (ne_sym j k other) ∙ free, set-IsDistinct m k v others)
  ]

  pub delete-IsDistinct : (m : Dict K V) (k : K) → IsDistinct m → IsDistinct (delete m k)
  unfolding delete
  delete-IsDistinct [] k h = tt
  delete-IsDistinct ((j, w) ∷ m) k (free, others) = elim (Bool-cases (j == k)) [
    | inl same ↦ rw same (delete-IsDistinct m k others)
    | inr other ↦
        rw other (get-delete_other m k j (ne_sym j k other) ∙ free, delete-IsDistinct m k others)
  ]
