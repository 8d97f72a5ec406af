-- ===== src/Chaining/Survivors.antt =====
-- What `filter_chainable_results` of src/main.rs returns.
use weggli_enhance.Common.{
  ℕ, zero, suc, ◌≤◌, ◌≡◌, refl, sym, ◌∙◌, Bool, true, false, List, [], ◌∷◌, some, some-injective,
  arith, leb, leb→le, length, get_elem?, get_elem?-length, Any, Member, All, All-index, Any-Member,
  Member-All, Member-Any, Bool-cases, ◌⊎◌, inl, inr, ◌↔◌, ap, subst, done,
}
use weggli_enhance.Sarif.{ResultsCtx}
use weggli_enhance.Chaining.{
  Groups, group_from, mark_all, all_false, kept, filter_chainable_results,
}
use weggli_enhance.Chaining.Groups.{AreGroups, group_from-results}
use weggli_enhance.Chaining.Agreement.{AllFitSource}
use weggli_enhance.Chaining.Marks.{IsKept, Marked, mark_all-Improves}

-- `ys` are the elements of `xs` with the property, in their order.
abbrev pub Keeps {ℓ} : {A : Type ℓ} → (A → Type 0) → List A → List A → Type ℓ
Keeps P [] ys = ys ≡ []
Keeps P (x ∷ xs) ys =
    (P x × ((zs : List _) × (ys ≡ x ∷ zs) × Keeps P xs zs)) ⊎ ((P x → ⊥) × Keeps P xs ys)

length-all_false : (n : ℕ) → length (all_false n) ≡ n
unfolding all_false
length-all_false zero = refl
length-all_false (suc n) = ap suc (length-all_false n)

Keeps-All : (P : ResultsCtx → Type 0) (rs : List ResultsCtx) → All P rs → Keeps P rs rs
Keeps-All P [] h = refl
Keeps-All P (r ∷ rs) h = inl (h.0, (rs, refl, Keeps-All P rs h.1))

kept-Keeps :
    (P : ResultsCtx → Type 0) (rs : List ResultsCtx) (keep : List Bool)
    → ((idx : ℕ) (r : ResultsCtx)
        → get_elem? rs idx ≡ some r
        → (b : Bool) × (get_elem? keep idx ≡ some b) × ((b ≡ true) ↔ P r))
    → (ys : List ResultsCtx) × (kept rs keep ≡ done ys) × Keeps P rs ys
unfolding kept
kept-Keeps P [] keep h = ([], refl, refl)
kept-Keeps P (r ∷ rs) [] h = let (b, e, iff) = h 0 r refl in absurd (ground (arith, e))
kept-Keeps P (r ∷ rs) (true ∷ keep) h =
    let (ys, e, k) = kept-Keeps P rs keep (λ idx s es. h (suc idx) s es) in
    let (b, eb, iff) = h 0 r refl in
    (r ∷ ys, rw e refl, inl (iff.0 (sym (some-injective true b eb)), (ys, refl, k)))
kept-Keeps P (r ∷ rs) (false ∷ keep) h =
    let (ys, e, k) = kept-Keeps P rs keep (λ idx s es. h (suc idx) s es) in
    let (b, eb, iff) = h 0 r refl in
    (ys, rw e refl, inr (λ p. ground (arith, iff.1 p, some-injective false b eb), k))

-- With at most one group all results are of one query.
one_query :
    (results : List ResultsCtx) (gs : Groups)
    → AreGroups results (length results) gs
    → length gs ≤ 1
    → All (IsKept results) results
one_query results gs are le = All-index _ results λ i a ea. All-index _ results λ j b eb. inl (
    same_key gs le (are.covered i a.query_index (get_elem?-length results i ea) (a, ea, refl))
      (are.covered j b.query_index (get_elem?-length results j eb) (b, eb, refl)))
  where
    same_key :
        {p q : ℕ} (gs : Groups)
        → length gs ≤ 1
        → Any (λ (g : ℕ × List ℕ). g.0 ≡ p) gs
        → Any (λ (g : ℕ × List ℕ). g.0 ≡ q) gs
        → p ≡ q
    same_key [] le x y = absurd x
    same_key (g ∷ []) le (inl e) (inl f) = sym e ∙ f
    same_key (g ∷ []) le (inl e) (inr y) = absurd y
    same_key (g ∷ []) le (inr x) y = absurd x
    same_key (g ∷ h ∷ gs) le x y = absurd (omega (arith, le))

filter-few :
    (results : List ResultsCtx)
    → leb (length (group_from 0 results [])) 1 ≡ true
    → filter_chainable_results results ≡ done results
unfolding filter_chainable_results
filter-few results few = rw few refl

filter-many :
    (results ys : List ResultsCtx) (keep : List Bool)
    → leb (length (group_from 0 results [])) 1 ≡ false
    → mark_all results
        (group_from 0 results [])
        (group_from 0 results [])
        (all_false (length results))
      ≡ done keep
    → kept results keep ≡ done ys
    → filter_chainable_results results ≡ done ys
unfolding filter_chainable_results
filter-many results ys keep many e f = rw (many, e) f

-- Every result is in a group, so its entry is right.
marks :
    (results : List ResultsCtx) (fit : AllFitSource results) (gs : Groups)
    (are : AreGroups results (length results) gs) (keep : List Bool)
    → ((idx : ℕ)
        → Marked results fit gs are idx (all_false (length results))
          ⊎ Any (λ (g : ℕ × List ℕ). Member idx g.1) gs
        → Marked results fit gs are idx keep)
    → (idx : ℕ) (r : ResultsCtx) → get_elem? results idx ≡ some r
    → (b : Bool) × (get_elem? keep idx ≡ some b) × ((b ≡ true) ↔ IsKept results r)
marks results fit gs are keep marked idx r er =
    let lt = get_elem?-length results idx er in
    let (g, mg, eg) = Any-Member _ gs (are.covered idx r.query_index lt (r, er, refl)) in
    let mi = (Member-All _ gs g are.groups mg).complete idx lt (r, er, sym eg) in
    let (b, eb, a, ea, iff) = marked idx (inr (Member-Any _ gs g mg mi)) in
    (b, eb, subst (λ z. (b ≡ true) ↔ IsKept results z) (some-injective a r (sym ea ∙ er)) iff)

-- Where every result fits its source, the filter does not panic and returns, in their order, exactly
-- the results that agree, for every other query with results, with some result of that query.
pub filter_chainable_results-Keeps :
    (results : List ResultsCtx)
    → AllFitSource results
    → (ys : List ResultsCtx) × (filter_chainable_results results ≡ done ys)
      × Keeps (IsKept results) results ys
filter_chainable_results-Keeps results fit =
    let gs = group_from 0 results [] in
    let are = group_from-results results in
    elim (Bool-cases (leb (length gs) 1)) [
      | inl few ↦ (
        results,
        filter-few results few,
        Keeps-All (IsKept results) results (one_query results gs are (leb→le _ _ few)),
      )
      | inr many ↦
          let (keep, e, imp) =
            mark_all-Improves results fit gs are gs (all_false (length results)) are.groups
              (length-all_false (length results)) in
          let (ys, f, k) =
            kept-Keeps (IsKept results) results keep (marks results fit gs are keep imp.marked) in
          (ys, filter-many results ys keep many e f, k)
    ]
