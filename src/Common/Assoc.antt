-- ===== src/Common/Assoc.antt =====
-- Hash maps as association lists: one entry for a key, and a write replaces the entry in place.
-- The list's order stands for the order of iteration, which the source leaves unspecified.
use mathlib.Core.Path.{◌≡◌, refl, subst}
use mathlib.Core.Bool.{Bool, true, false}
use mathlib.Core.List.{List, [], ◌∷◌}
use mathlib.Core.Logic.{inl, inr}
use mathlib.Core.Option.{Option, none, some, some-injective}
use native.Mathlib.Omega.{arith}
use weggli_enhance.Common.Lists.{All, All-mono, all}
use weggli_enhance.Common.Tests.{HasEquality, ◌==◌, if◌then◌else◌, Bool-cases}

module _ {ℓ} {K V : Type ℓ} ⦃e : HasEquality K⦄ where
  abbrev pub lookup : K → List (K × V) → Option V
  lookup k [] = none
  lookup k ((j, v) ∷ m) = if j == k then some v else lookup k m

  abbrev pub insert : K → V → List (K × V) → List (K × V)
  insert k v [] = (k, v) ∷ []
  insert k v ((j, w) ∷ m) = if j == k then (k, v) ∷ m else (j, w) ∷ insert k v m

  -- No key has two entries.
  abbrev pub Distinct : List (K × V) → Type ℓ
  Distinct [] = Unit
  Distinct ((k, v) ∷ m) = (lookup k m ≡ none) × Distinct m

pub ==_refl {ℓ} : {K : Type ℓ} ⦃e : HasEquality K⦄ (k : K) → (k == k) ≡ true
==_refl ⦃e⦄ k = (e.same_iff k k).1 refl

module _ {ℓ} {K V : Type ℓ} ⦃e : HasEquality K⦄ where
  pub lookup-insert :
      (k j : K) (v : V) (m : List (K × V))
      → lookup j (insert k v m) ≡ (if k == j then some v else lookup j m)
  lookup-insert k j v [] = refl
  lookup-insert k j v ((i, w) ∷ m) =
      ground (arith, e.same_iff k j, e.same_iff i k, e.same_iff i j, lookup-insert k j v m)

  pub insert-Distinct : (k : K) (v : V) (m : List (K × V)) → Distinct m → Distinct (insert k v m)
  insert-Distinct k v [] d = (refl, tt)
  insert-Distinct k v ((i, w) ∷ m) (fresh, d) = elim (Bool-cases (i == k)) [
    | inl same ↦ rw same (rw ((e.same_iff i k).0 same) at fresh, d)
    | inr other ↦ rw other (
      ground (arith, lookup-insert k i v m, e.same_iff k i, e.same_iff i k),
      insert-Distinct k v m d,
    )
  ]

  pub lookup-insert_self : (k : K) (v : V) (m : List (K × V)) → lookup k (insert k v m) ≡ some v
  lookup-insert_self k v m = ground (arith, lookup-insert k k v m, ==_refl k)

  pub lookup-insert_eq :
      (k j : K) (v : V) (m : List (K × V)) → (k == j) ≡ true → lookup j (insert k v m) ≡ some v
  lookup-insert_eq k j v m h = ground (arith, lookup-insert k j v m)

  pub lookup-insert_ne :
      (k j : K) (v : V) (m : List (K × V)) → (k == j) ≡ false → lookup j (insert k v m) ≡ lookup j m
  lookup-insert_ne k j v m h = ground (arith, lookup-insert k j v m)

  -- In a map every entry is what a look-up of its key finds.
  pub entries-lookup :
      (m : List (K × V)) → Distinct m → All (λ (c : K × V). lookup c.0 m ≡ some c.1) m
  entries-lookup [] d = tt
  entries-lookup ((k, v) ∷ m) (fresh, d) = (
    rw (==_refl k),
    All-mono (λ (c : K × V). lookup c.0 m ≡ some c.1)
        (λ (c : K × V). lookup c.0 ((k, v) ∷ m) ≡ some c.1) m
        (λ c h. ground (arith, e.same_iff k c.0)) (entries-lookup m d),
  )

  -- A property of the values holds of what a look-up finds.
  pub All-lookup {κ} :
      (P : V → Type κ) (m : List (K × V)) (k : K) {v : V}
      → All (λ (c : K × V). P c.1) m
      → lookup k m ≡ some v
      → P v
  All-lookup P [] k h l = cc
  All-lookup P ((j, w) ∷ m) k {v} h l = elim (Bool-cases (j == k)) [
    | inl same ↦ subst P (some-injective w v (rw same at l)) h.0
    | inr other ↦ All-lookup P m k h.1 (rw other at l)
  ]

  pub all-lookup :
      (p : K → Bool) (m : List (K × V)) (k : K) {v : V}
      → all m (λ c. p c.0) ≡ true
      → lookup k m ≡ some v
      → p k ≡ true
  all-lookup p [] k h l = cc
  all-lookup p ((j, w) ∷ m) k h l = elim (Bool-cases (j == k)) [
    | inl same ↦ rw (← (e.same_iff j k).0 same) (ground arith)
    | inr other ↦ all-lookup p m k (ground arith) (rw other at l)
  ]

  pub insert-All {κ} :
      (P : V → Type κ) (k : K) (v : V) (m : List (K × V))
      → P v
      → All (λ (c : K × V). P c.1) m
      → All (λ (c : K × V). P c.1) (insert k v m)
  insert-All P k v [] p h = (p, tt)
  insert-All P k v ((j, w) ∷ m) p h = elim (Bool-cases (j == k)) [
    | inl same ↦ rw same (p, h.1)
    | inr other ↦ rw other (h.0, insert-All P k v m p h.1)
  ]
