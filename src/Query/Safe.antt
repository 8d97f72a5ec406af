-- ===== src/Query/Safe.antt =====
-- `process_match` of src/query.rs: its sub queries are found, and their results merged.
use weggli_enhance.Common.{
  ℕ, zero, suc, ◌<◌, ◌≡◌, refl, sym, subst, false, List, [], ◌∷◌, Option, none, some,
  some-injective, All, length, get_elem?, bytes_eq, Outcome, done, panic,
}
use weggli_enhance.Text.{Bytes}
use weggli_enhance.Result.{QueryResult}
use weggli_enhance.Result.Bindings.{IsWellFormed}
use weggli_enhance.Result.Products.{merge_results-IsProduct}
use weggli_enhance.Query.Tree.{Capture}
use weggli_enhance.Query.Engine.{
  TreeSitter, QueryMatch, Action, pure, attempt, ◌>>=◌, SubMatcher, find_sub, Progress,
  run_subqueries, process_match, scan, nothing_yet, own_result,
}
use weggli_enhance.Query.Regexes.{Covers, own_regexes}
use weggli_enhance.Query.Progress.{IsSub, IsSane, HasSub, IsProgress, Kept, scan-Kept}
use weggli_enhance.Query.Ensures.{Ensures, pure-Ensures, attempt-Ensures, bind-Ensures}

module _ (ts : TreeSitter) (source : Bytes) (sane : IsSane ts source) (Fail : Type 0) (S : Type 0)
    (Inv : S → Type 0)
    (memo : ℕ → ℕ → Action S (List QueryResult) → Action S (List QueryResult)) where
  open ts use {Pattern, Regex, Node, pattern_count, query_matches}

  abbrev pub Fits : List QueryResult → Type 0
  Fits = All (IsWellFormed source)

  -- The memoization keeps what a run ensures.
  abbrev pub Preserves : Type 0
  Preserves =
      (q n : ℕ) (m : Action S (List QueryResult))
      → Ensures Fail Inv Fits m
      → Ensures Fail Inv Fits (memo q n m)

  abbrev pub SubEnsures : Capture Pattern Regex → Option (SubMatcher ts source S) → Type 0
  SubEnsures c none = ¬ IsSub c
  SubEnsures c (some s) = (n : Node) → Ensures Fail Inv Fits (s.run n)

  abbrev pub SubsEnsure :
      List (Capture Pattern Regex) → List (Option (SubMatcher ts source S)) → Type 0
  SubsEnsure [] ss = Unit
  SubsEnsure (c ∷ cs) [] = ⊥
  SubsEnsure (c ∷ cs) (s ∷ ss) = SubEnsures c s × SubsEnsure cs ss

  found_sub :
      (c : Capture Pattern Regex) (s : Option (SubMatcher ts source S))
      → SubEnsures c s
      → IsSub c
      → (t : SubMatcher ts source S) × (s ≡ some t) × ((n : Node) → Ensures Fail Inv Fits (t.run n))
  found_sub c none h is_sub = absurd (h is_sub)
  found_sub c (some t) h is_sub = (t, refl, h)

  find_sub-SubEnsures :
      (cs : List (Capture Pattern Regex)) (ss : List (Option (SubMatcher ts source S))) (i : ℕ)
      {c : Capture Pattern Regex}
      → SubsEnsure cs ss
      → get_elem? cs i ≡ some c
      → IsSub c
      → (t : SubMatcher ts source S) × (find_sub ts source S ss i ≡ some t)
        × ((n : Node) → Ensures Fail Inv Fits (t.run n))
  unfolding find_sub
  find_sub-SubEnsures [] ss i h e is_sub = cc
  find_sub-SubEnsures (c ∷ cs) [] i h e is_sub = absurd h
  find_sub-SubEnsures (c ∷ cs) (s ∷ ss) zero {c = d} h e is_sub =
      found_sub c s h.0 (subst IsSub (sym (some-injective c d e)) is_sub)
  find_sub-SubEnsures (c ∷ cs) (s ∷ ss) (suc i) h e is_sub =
      find_sub-SubEnsures cs ss i h.1 e is_sub

  module _ (keep : Preserves) (cs : List (Capture Pattern Regex))
      (ss : List (Option (SubMatcher ts source S))) (subs : SubsEnsure cs ss) where
    run_subqueries-Ensures :
        (qs : List (ℕ × Node)) (results : List QueryResult)
        → All (HasSub ts source sane cs) qs
        → Fits results
        → Ensures Fail Inv Fits (run_subqueries ts source S memo ss qs results)
    unfolding run_subqueries
    run_subqueries-Ensures [] results known h = pure-Ensures Fail Inv Fits results h
    run_subqueries-Ensures (q ∷ qs) [] known h = run_subqueries-Ensures qs [] known.1 tt
    run_subqueries-Ensures ((index, node) ∷ qs) (r ∷ rs) known h =
        let (c, e, is_sub) = known.0 in
        let (t, found, total) = find_sub-SubEnsures cs ss index subs e is_sub in
        rw found (
          bind-Ensures Fail Inv Fits Fits _ _ (keep t.id _ _ (total node)) λ sub_results fit.
            let (ms, done_ms, product) =
              merge_results-IsProduct source false (r ∷ rs) sub_results h fit in
            bind-Ensures Fail Inv Fits Fits _ _
              (attempt-Ensures Fail Inv Fits _ done_ms product.well_formed)
              λ results fits. run_subqueries-Ensures qs results known.1 fits)

    own_result-IsWellFormed :
        (p : Progress ts source)
        → IsProgress ts source sane cs p
        → IsWellFormed source (own_result ts source p)
    unfolding own_result
    own_result-IsWellFormed p h = record {
      in_range = h.in_range;
      distinct = h.distinct;
      sliceable = h.sliceable;
    }

    pub process_match-Ensures :
        (id : ℕ) (m : QueryMatch Node)
        → All (λ (c : ℕ × Node). c.0 < length cs) m.captures
        → All (λ (c : Capture Pattern Regex). Covers ts source Fail (own_regexes c)) cs
        → Ensures Fail Inv Fits (process_match ts source S memo id cs ss m)
    unfolding process_match
    process_match-Ensures id m known covers =
        finish (scan ts source id cs m.captures (nothing_yet ts source)) (
          scan-Kept ts source sane Fail id cs m.captures _ known covers
            (record { in_range = tt; distinct = tt; sliceable = tt; subs = tt }))
      where
        finish :
            (o : Outcome (Option (Progress ts source)))
            → Kept ts source sane Fail cs o
            → Ensures Fail Inv Fits (
                attempt o >>= elim [
                  | none ↦ pure []
                  | some p ↦
                      run_subqueries ts source S memo ss p.subqueries (own_result ts source p ∷ [])
                ])
        finish (done (some p)) k =
            run_subqueries-Ensures p.subqueries _ k.subs (own_result-IsWellFormed p k, tt)
        finish (done none) k = pure-Ensures Fail Inv Fits [] tt
        finish panic k = record { at_state = λ s i. k }
