-- ===== src/Result/Chain.antt =====
-- `QueryResult::chainable` of src/result.rs: results of two files with one assignment.
use weggli_enhance.Common.{
  ℕ, ◌≡◌, refl, sym, true, not, List, [], ◌∷◌, Option, some, arith, All, done, panic, lookup,
  bytes_eq, entries-lookup, Option-cases, inl, inr, ◌↔◌, Bool_ext, ◌≢◌, ap, ◌∙◌,
}
use weggli_enhance.Text.{Bytes}
use weggli_enhance.Result.{QueryResult, differs_at, any_differs, chainable}
use weggli_enhance.Result.Bindings.{
  IsWellFormed, assignment, value-unbound, assignment-unbound, assignment-bound,
}
use weggli_enhance.Result.Adopt.{
  Compatible, agrees, all_agree, all_agree_of_Compatible, Compatible-all_agree,
}

module _ (source other_source : Bytes) (r other : QueryResult) (wr : IsWellFormed source r)
    (wo : IsWellFormed other_source other) where
  differs_at-agrees :
      (k : Bytes) {v : ℕ}
      → lookup k other.vars ≡ some v
      → differs_at r source other other_source k
        ≡ done (not (agrees (assignment r source k) (assignment other other_source k)))
  unfolding differs_at
  differs_at-agrees k e = elim (Option-cases (lookup k r.vars)) [
    | inl absent ↦
        ground (arith, value-unbound source r k absent, assignment-unbound source r k absent)
    | inr (i, bound) ↦
        let (s, hs, es) = assignment-bound source r k wr bound in
        let (t, ht, et) = assignment-bound other_source other k wo e in
        ground (arith, hs, es, ht, et)
  ]

  any_differs-all_agree :
      (rest : List (Bytes × ℕ))
      → All (λ (e : Bytes × ℕ). lookup e.0 other.vars ≡ some e.1) rest
      → any_differs r source other other_source rest
        ≡ done (not (all_agree (assignment r source) (assignment other other_source) rest))
  unfolding any_differs all_agree
  any_differs-all_agree [] h = refl
  any_differs-all_agree ((k, v) ∷ rest) h =
      ground (arith, differs_at-agrees k h.0, any_differs-all_agree rest h.1)

  pub chainable-all_agree :
      chainable r source other other_source
      ≡ done (all_agree (assignment r source) (assignment other other_source) other.vars)
  unfolding chainable
  chainable-all_agree =
      ground
        (arith, any_differs-all_agree other.vars (entries-lookup {V = ℕ} other.vars wo.distinct))

-- For results that fit their files `chainable` never panics, and it holds exactly when the two
-- assignments give no variable two texts.
pub chainable_iff :
    (source other_source : Bytes) (r other : QueryResult)
    → IsWellFormed source r
    → IsWellFormed other_source other
    → (chainable r source other other_source ≢ panic)
      × ((chainable r source other other_source ≡ done true)
          ↔ Compatible (assignment r source) (assignment other other_source))
chainable_iff source other_source r other wr wo =
    let e = chainable-all_agree source other_source r other wr wo in
    (
      ground (arith, e),
      (
        λ h.
            Compatible-all_agree _ _ other.vars (assignment-unbound other_source other)
              (ground (arith, e)),
        λ c. e ∙ ap done (all_agree_of_Compatible _ _ other.vars c),
      ),
    )

Compatible-symm : (a b : Bytes → Option Bytes) → Compatible a b → Compatible b a
Compatible-symm a b c k s t hs ht = sym (c k t s ht hs)

-- For results that fit their files, `chainable` does not depend on which of the two is asked.
pub chainable_symm :
    (source other_source : Bytes) (r other : QueryResult)
    → IsWellFormed source r
    → IsWellFormed other_source other
    → chainable r source other other_source ≡ chainable other other_source r source
chainable_symm source other_source r other wr wo =
    let here = chainable-all_agree source other_source r other wr wo in
    let there = chainable-all_agree other_source source other r wo wr in
    here
    ∙ (ap done (
          Bool_ext _ _
            (λ h. all_agree_of_Compatible _ _ r.vars (
              Compatible-symm _ _
                (Compatible-all_agree _ _ other.vars (assignment-unbound other_source other) h)))
            (λ h. all_agree_of_Compatible _ _ other.vars (
              Compatible-symm _ _
                (Compatible-all_agree _ _ r.vars (assignment-unbound source r) h))))
        ∙ sym there)
