-- ===== src/Result/Merge.antt =====
-- `QueryResult::merge` of src/result.rs against the union of two variable assignments.
use weggli_enhance.Common.{
  ◌≡◌, refl, ap, sym, ◌∙◌, Bool, true, false, ◌&&◌, ◌++◌, Option, none, some, arith, done, panic,
  entries-lookup, Option-cases, lookup, bytes_eq, ◌↔◌, ◌≢◌, List, [], ◌∷◌, All, any, leb, ◌<◌, inl,
  inr, if◌then◌else◌, subst,
}
use weggli_enhance.Text.{Bytes}
use weggli_enhance.Result.{QueryResult, CaptureResult, merge, is_out_of_order}
use weggli_enhance.Result.Bindings.{
  IsWellFormed, assignment, value-unbound, assignment-unbound, assignment-bound,
}
use weggli_enhance.Result.Adopt.{
  Compatible, or_else, merged, all_agree, merge_vars-adopt, value-merged, merged-IsWellFormed,
  all_agree_of_Compatible, Compatible-all_agree,
}

-- Every capture of `other` starts strictly behind the end of every capture of `r`.
abbrev pub Follows : QueryResult → QueryResult → Type 0
Follows r other =
    All
      (λ (c : CaptureResult). All (λ (c2 : CaptureResult). c2.range.end < c.range.start) r.captures)
      other.captures

starts_behind :
    (c : CaptureResult) (cs : List CaptureResult)
    → (any cs (λ c2. leb c.range.start c2.range.end) ≡ false)
      ↔ All (λ (c2 : CaptureResult). c2.range.end < c.range.start) cs
starts_behind c [] = (λ _. tt, λ _. refl)
starts_behind c (d ∷ cs) = ground (arith, starts_behind c cs)

All-behind :
    (rs cs : List CaptureResult)
    → (any cs (λ c. any rs λ c2. leb c.range.start c2.range.end) ≡ false)
      ↔ All
          (λ (c : CaptureResult). All (λ (c2 : CaptureResult). c2.range.end < c.range.start) rs)
          cs
All-behind rs [] = (λ _. tt, λ _. refl)
All-behind rs (c ∷ cs) = ground (arith, starts_behind c rs, All-behind rs cs)

Follows-iff : (r other : QueryResult) → (is_out_of_order r other ≡ false) ↔ Follows r other
unfolding is_out_of_order
Follows-iff r other = All-behind r.captures other.captures

-- What `merge` makes of two results.
pub record IsUnion (source : Bytes) (r other m : QueryResult) : Type 0 where
  pub captures : m.captures ≡ r.captures ++ other.captures
  pub function : m.function ≡ r.function
  pub union :
      (k : Bytes)
      → assignment m source k ≡ or_else (assignment r source k) (assignment other source k)
  pub well_formed : IsWellFormed source m

module _ (source : Bytes) (r other : QueryResult) (wr : IsWellFormed source r)
    (wo : IsWellFormed source other) where
  assignment-merged :
      (k : Bytes)
      → assignment (merged source r other) source k
        ≡ or_else (assignment r source k) (assignment other source k)
  unfolding assignment
  assignment-merged k = elim (Option-cases (lookup k r.vars)) [
    | inl absent ↦
        ground (arith, value-merged source r other k wr wo, value-unbound source r k absent)
    | inr (i, e) ↦
        let (s, hs, es) = assignment-bound source r k wr e in
        ground (arith, value-merged source r other k wr wo, es)
  ]

  merged-IsUnion : IsUnion source r other (merged source r other)
  merged-IsUnion = record {
    captures = refl;
    function = refl;
    union = assignment-merged;
    well_formed = merged-IsWellFormed source r other wr wo;
  }

  -- `merge` in one equation.
  pub merge_lem :
      (enforce : Bool)
      → merge r other source enforce
        ≡ done (
            if enforce && is_out_of_order r other
            then none
            else if all_agree (assignment r source) (assignment other source) other.vars
            then some (merged source r other)
            else none)
  unfolding merge
  merge_lem enforce = ground (
    arith,
    merge_vars-adopt source r other other.vars r.vars wr wo (entries-lookup other.vars wo.distinct),
  )

  merge_inverse :
      (enforce : Bool) (m : QueryResult)
      → merge r other source enforce ≡ done (some m)
      → (merged source r other ≡ m)
        × (all_agree (assignment r source) (assignment other source) other.vars ≡ true)
        × (enforce && is_out_of_order r other ≡ false)
  merge_inverse enforce m h = ground (arith, merge_lem enforce)

-- Where merging two results that fit their source returns a result, the two
-- assign no variable two texts, the new result has the captures of both, the function of the
-- first and the union of the two assignments, and it fits the source again. With
-- `enforce_order` every capture of the second starts behind those of the first.
pub merge-IsUnion :
    (source : Bytes) (r other m : QueryResult) (enforce : Bool)
    → IsWellFormed source r
    → IsWellFormed source other
    → merge r other source enforce ≡ done (some m)
    → IsUnion source r other m
      × Compatible (assignment r source) (assignment other source)
      × (enforce ≡ true → Follows r other)
merge-IsUnion source r other m enforce wr wo h =
    let (same, agree, fine) = merge_inverse source r other wr wo enforce m h in
    (
      subst (IsUnion source r other) same (merged-IsUnion source r other wr wo),
      Compatible-all_agree _ _ other.vars (assignment-unbound source other) agree,
      λ ordered. (Follows-iff r other).0 (ground arith),
    )

or_else_comm :
    (x y : Option Bytes)
    → ((s t : Bytes) → x ≡ some s → y ≡ some t → s ≡ t)
    → or_else y x ≡ or_else x y
or_else_comm none none h = refl
or_else_comm none (some t) h = refl
or_else_comm (some s) none h = refl
or_else_comm (some s) (some t) h = ap some (sym (h s t refl refl))

merge_accepts :
    (source : Bytes) (r other : QueryResult)
    → IsWellFormed source r
    → IsWellFormed source other
    → (enforce : Bool) → Compatible (assignment r source) (assignment other source)
    → (enforce ≡ true → Follows r other)
    → merge r other source enforce ≡ done (some (merged source r other))
merge_accepts source r other wr wo enforce c f = rw (
  merge_lem source r other wr wo enforce,
  fine enforce f,
  all_agree_of_Compatible _ _ other.vars c,
)
  where
    fine : (b : Bool) → (b ≡ true → Follows r other) → (b && is_out_of_order r other) ≡ false
    fine false h = refl
    fine true h = (Follows-iff r other).1 (h refl)

-- On two results that fit the source `merge` does not panic. It returns a result exactly when the assignments agree on the shared variables and, with
-- `enforce_order`, the second result follows the first; otherwise it returns `None`.
pub merge-some_iff :
    (source : Bytes) (r other : QueryResult) (enforce : Bool)
    → IsWellFormed source r
    → IsWellFormed source other
    → (((m : QueryResult) × (merge r other source enforce ≡ done (some m))) ↔ (
        Compatible (assignment r source) (assignment other source)
        × (enforce ≡ true → Follows r other)))
      × (merge r other source enforce ≢ panic)
merge-some_iff source r other enforce wr wo = (
  (
    λ (m, h). let (_, c, f) = merge-IsUnion source r other m enforce wr wo h in (c, f),
    λ (c, f). (merged source r other, merge_accepts source r other wr wo enforce c f),
  ),
  ground (arith, merge_lem source r other wr wo enforce),
)

-- Without an order to keep, where two results that fit the source merge, they also merge in the
-- other order, and both merges give each variable the same text.
pub merge_comm :
    (source : Bytes) (r other : QueryResult)
    → IsWellFormed source r
    → IsWellFormed source other
    → {m : QueryResult} → merge r other source false ≡ done (some m)
    → (n : QueryResult) × (merge other r source false ≡ done (some n))
      × ((k : Bytes) → assignment n source k ≡ assignment m source k)
merge_comm source r other wr wo {m} h =
    let (u, c, _) = merge-IsUnion source r other m false wr wo h in
    let n = merged source other r in
    (
      n,
      merge_accepts source other r wo wr false (λ k s t hs ht. sym (c k t s ht hs)) (λ e. cc),
      λ k. (assignment-merged source other r wo wr k ∙ or_else_comm _ _ (c k)) ∙ sym (u.union k),
    )
