-- ===== src/Common/Members.antt =====
-- Elements of lists: by membership, by index, and by a property.
use Prim.Native.Nat.{ℕ, zero, suc, ◌<◌}
use mathlib.Core.Path.{◌≡◌, refl, sym, subst}
use mathlib.Core.Logic.{inl, inr}
use mathlib.Core.List.{List, [], ◌∷◌}
use mathlib.Core.Option.{some, some-injective}
use native.Mathlib.Omega.{arith}
use weggli_enhance.Common.Lists.{length, get_elem?, All, Any, Member}

module _ {A : Type 0} (P : A → Type 0) where
  pub All-Member : (xs : List A) → ((x : A) → Member x xs → P x) → All P xs
  All-Member [] h = tt
  All-Member (x ∷ xs) h = (h x (inl refl), All-Member xs (λ y m. h y (inr m)))

  pub Member-All : (xs : List A) (x : A) → All P xs → Member x xs → P x
  Member-All [] x h m = absurd m
  Member-All (y ∷ xs) x h (inl same) = subst P same h.0
  Member-All (y ∷ xs) x h (inr later) = Member-All xs x h.1 later

  pub All-index : (xs : List A) → ((i : ℕ) (x : A) → get_elem? xs i ≡ some x → P x) → All P xs
  All-index [] h = tt
  All-index (x ∷ xs) h = (h 0 x refl, All-index xs (λ i y e. h (suc i) y e))

  pub Any-Member : (xs : List A) → Any P xs → (x : A) × Member x xs × P x
  Any-Member [] h = absurd h
  Any-Member (x ∷ xs) (inl p) = (x, inl refl, p)
  Any-Member (x ∷ xs) (inr h) = let (y, m, p) = Any-Member xs h in (y, inr m, p)

  pub Member-Any : (xs : List A) (x : A) → Member x xs → P x → Any P xs
  Member-Any [] x m p = m
  Member-Any (y ∷ xs) x (inl same) p = inl (subst P (sym same) p)
  Member-Any (y ∷ xs) x (inr later) p = inr (Member-Any xs x later p)

  pub Any-index : (xs : List A) → Any P xs → (i : ℕ) × (x : A) × (get_elem? xs i ≡ some x) × P x
  Any-index [] h = absurd h
  Any-index (x ∷ xs) (inl p) = (0, x, refl, p)
  Any-index (x ∷ xs) (inr h) = let (i, y, e, p) = Any-index xs h in (suc i, y, e, p)

  pub index-Any : (xs : List A) (i : ℕ) {x : A} → get_elem? xs i ≡ some x → P x → Any P xs
  index-Any [] i e p = cc
  index-Any (y ∷ xs) zero {x} e p = inl (subst P (sym (some-injective y x e)) p)
  index-Any (y ∷ xs) (suc i) e p = inr (index-Any xs i e p)

pub get_elem?-length :
    {A : Type 0} (xs : List A) (i : ℕ) {x : A} → get_elem? xs i ≡ some x → i < length xs
get_elem?-length [] i e = cc
get_elem?-length (y ∷ xs) zero e = omega arith
get_elem?-length (y ∷ xs) (suc i) e = omega (arith, get_elem?-length xs i e)
