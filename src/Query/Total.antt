-- ===== src/Query/Total.antt =====
-- `match_internal` of src/query.rs on a sane syntax tree.
use weggli_enhance.Common.{
  ℕ, ◌≡◌, ◌∙◌, Bool, true, false, List, [], ◌∷◌, Option, arith, if◌then◌else◌, any, All,
  All-append_left, All-append_right, length, bytes_eq,
}
use weggli_enhance.Text.{Bytes}
use weggli_enhance.Result.{QueryResult}
use weggli_enhance.Result.Bindings.{IsWellFormed}
use weggli_enhance.Query.Tree.{
  Capture, display, variable, check, number, call_exp_query, sub_wild_query, sub_multi_query,
}
use weggli_enhance.Query.Engine.{TreeSitter, QueryMatch, Action, pure, SubMatcher}
use weggli_enhance.Query.Progress.{IsSane}
use weggli_enhance.Query.Regexes.{
  Covers, regexes, capture_regexes, own_regexes, negation_regexes, capture_list-Covers,
}
use weggli_enhance.Query.Ensures.{Ensures, pure-Ensures, bind-Ensures}
use weggli_enhance.Query.Tree.{
  Captures, no_captures, capture, Negations, no_negations, negation, QueryTree, query_tree,
  capture_list,
}
use weggli_enhance.Query.Engine.{NegativeMatcher}
use weggli_enhance.Query.Match.{
  pair_eq, is_empty, collect, negative_query_matched, filter_negations, match_tree, match_internal,
  sub_matchers, sub_matcher, negative_matchers,
}
use weggli_enhance.Query.Safe.{Fits, Preserves, SubEnsures, SubsEnsure, process_match-Ensures}
use weggli_enhance.Query.Patterns.{
  AllFit, extend_at-AllFit, empty_results-AllFit, merge_patterns-Fits, any_valid-done,
}
use weggli_enhance.Query.Compiled.{
  KnownMatch, IsCompiled, CapturesCompiled, CaptureCompiled, NegationsCompiled,
}

module _ (ts : TreeSitter) (source : Bytes) (sane : IsSane ts source) (Fail : Type 0) (S : Type 0)
    (Inv : S → Type 0) (memo : ℕ → ℕ → Action S (List QueryResult) → Action S (List QueryResult))
    (keep : Preserves ts source sane Fail S Inv memo) where
  open ts use {Pattern, Regex, Node, pattern_count, query_matches}

  abbrev Matches : Type 0
  Matches = Node → Action S (List QueryResult)

  collect-Ensures :
      (id : ℕ) (cs : List (Capture Pattern Regex)) (ss : List (Option (SubMatcher ts source S)))
      (query : Pattern) (ms : List (QueryMatch Node)) (prs : List (List QueryResult))
      → SubsEnsure ts source sane Fail S Inv memo cs ss
      → All (KnownMatch ts source query cs) ms
      → All (λ (c : Capture Pattern Regex). Covers ts source Fail (own_regexes c)) cs
      → AllFit source prs
      → length prs ≡ pattern_count query
      → Ensures Fail Inv (AllFit source) (collect ts source S memo id cs ss ms prs)
  unfolding collect
  collect-Ensures id cs ss query [] prs subs known covers fit n =
      pure-Ensures Fail Inv (AllFit source) prs fit
  collect-Ensures id cs ss query (m ∷ ms) prs subs known covers fit n =
      bind-Ensures Fail Inv (Fits ts source sane Fail S Inv memo) (AllFit source) _ _
        (process_match-Ensures ts source sane Fail S Inv memo keep cs ss subs id m known.0.1 covers)
        λ rs fits.
          let (prs', e, fit', same) =
            extend_at-AllFit source m.pattern_index rs prs (omega (arith, known.0.0)) fits fit in
          rw e (collect-Ensures id cs ss query ms prs' subs known.1 covers fit' (same ∙ n))

  abbrev NegativesEnsure : List (NegativeMatcher ts source S) → Type 0
  NegativesEnsure = All λ (neg : NegativeMatcher ts source S).
      (n : Node) → Ensures Fail Inv (Fits ts source sane Fail S Inv memo) (neg.run n)

  negative_query_matched-Ensures :
      (id : ℕ) (root : Node) (result : QueryResult) (negs : List (NegativeMatcher ts source S))
      → IsWellFormed source result
      → NegativesEnsure negs
      → Ensures Fail Inv
          (λ b. Unit {0})
          (negative_query_matched ts source S memo id root result negs)
  unfolding negative_query_matched
  negative_query_matched-Ensures id root result [] h all =
      pure-Ensures Fail Inv (λ b. Unit {0}) false tt
  negative_query_matched-Ensures id root result (neg ∷ negs) h all =
      bind-Ensures Fail Inv (Fits ts source sane Fail S Inv memo) (λ b. Unit {0}) _ _ (all.0 root)
        λ ns fit.
          let (b, e) = any_valid-done source id result neg.previous_capture_index ns h fit in
          rw e (go b (negative_query_matched-Ensures id root result negs h all.1))
    where
      go :
          (b : Bool) {m : Action S Bool}
          → Ensures Fail Inv (λ c. Unit {0}) m
          → Ensures Fail Inv (λ c. Unit {0}) (elim b [ true ↦ pure true | false ↦ m ])
      go true h = pure-Ensures Fail Inv (λ c. Unit {0}) true tt
      go false h = h

  filter_negations-Ensures :
      (id : ℕ) (root : Node) (negs : List (NegativeMatcher ts source S)) (rs : List QueryResult)
      → All (IsWellFormed source) rs
      → NegativesEnsure negs
      → Ensures Fail Inv
          (Fits ts source sane Fail S Inv memo)
          (filter_negations ts source S memo id root negs rs)
  unfolding filter_negations
  filter_negations-Ensures id root negs [] h all =
      pure-Ensures Fail Inv (Fits ts source sane Fail S Inv memo) [] tt
  filter_negations-Ensures id root negs (r ∷ rs) h all =
      bind-Ensures Fail Inv (λ b. Unit {0}) (Fits ts source sane Fail S Inv memo) _ _
        (negative_query_matched-Ensures id root r negs h.0 all)
        λ matched _.
          bind-Ensures Fail Inv (Fits ts source sane Fail S Inv memo)
            (Fits ts source sane Fail S Inv memo) _ _
            (filter_negations-Ensures id root negs rs h.1 all)
            λ rest fit.
              pure-Ensures Fail Inv (Fits ts source sane Fail S Inv memo) _ (kept matched rest fit)
    where
      kept :
          (b : Bool) (rest : List QueryResult)
          → All (IsWellFormed source) rest
          → All (IsWellFormed source) (if b then rest else r ∷ rest)
      kept true rest fit = fit
      kept false rest fit = (h.0, fit)

  match_tree-Ensures :
      (query : Pattern) (cs : List (Capture Pattern Regex))
      (ss : List (Option (SubMatcher ts source S))) (negs : List (NegativeMatcher ts source S))
      (id : ℕ) (root : Node)
      → All (KnownMatch ts source query cs) (query_matches query root source)
      → All (λ (c : Capture Pattern Regex). Covers ts source Fail (own_regexes c)) cs
      → SubsEnsure ts source sane Fail S Inv memo cs ss
      → NegativesEnsure negs
      → Ensures Fail Inv
          (Fits ts source sane Fail S Inv memo)
          (match_tree ts source S memo query cs ss negs id root)
  unfolding match_tree
  match_tree-Ensures query cs ss negs id root known covers subs all =
      let (none_yet, n) = empty_results-AllFit source (pattern_count query) in
      bind-Ensures Fail Inv (AllFit source) (Fits ts source sane Fail S Inv memo) _ _
        (collect-Ensures id cs ss query (query_matches query root source) _ subs known covers
          none_yet n)
        λ prs fit.
          let (ms, e, fits) = merge_patterns-Fits source prs [] fit tt in
          go (any prs is_empty)
            (rw e (go (is_empty ms) (filter_negations-Ensures id root negs ms fits all)))
    where
      go :
          (b : Bool) {m : Action S (List QueryResult)}
          → Ensures Fail Inv (Fits ts source sane Fail S Inv memo) m
          → Ensures Fail Inv
              (Fits ts source sane Fail S Inv memo)
              (elim b [ true ↦ pure [] | false ↦ m ])
      go true h = pure-Ensures Fail Inv (Fits ts source sane Fail S Inv memo) [] tt
      go false h = h

  mutual
    unfolding match_internal capture_list regexes

    pub match_internal-Ensures :
        (t : QueryTree Pattern Regex)
        → IsCompiled ts source t
        → Covers ts source Fail (regexes t)
        → (root : Node)
        → Ensures Fail Inv
            (Fits ts source sane Fail S Inv memo)
            (match_internal ts source S memo t root)
    match_internal-Ensures (query_tree query cs ns id) h covers root =
        let own = All-append_left _ (capture_regexes cs) (negation_regexes ns) covers in
        let negated = All-append_right _ (capture_regexes cs) (negation_regexes ns) covers in
        match_tree-Ensures query _ _ _ id root (h.0 root)
          (capture_list-Covers ts source Fail cs own) (sub_matchers-SubsEnsure cs h.1 own)
          (negative_matchers-NegativesEnsure ns h.2 negated)

    sub_matchers-SubsEnsure :
        (cs : Captures Pattern Regex)
        → CapturesCompiled ts source cs
        → Covers ts source Fail (capture_regexes cs)
        → SubsEnsure ts source sane Fail S Inv memo
            (capture_list cs)
            (sub_matchers ts source S memo cs)
    sub_matchers-SubsEnsure no_captures h covers = tt
    sub_matchers-SubsEnsure (capture c cs) h covers = (
      sub_matcher-SubEnsures c h.0 (All-append_left _ (own_regexes c) (capture_regexes cs) covers),
      sub_matchers-SubsEnsure cs h.1
          (All-append_right _ (own_regexes c) (capture_regexes cs) covers),
    )

    sub_matcher-SubEnsures :
        (c : Capture Pattern Regex)
        → CaptureCompiled ts source c
        → Covers ts source Fail (own_regexes c)
        → SubEnsures ts source sane Fail S Inv memo c (sub_matcher ts source S memo c)
    sub_matcher-SubEnsures display h covers = λ n. n
    sub_matcher-SubEnsures (variable s constraint) h covers = λ n. n
    sub_matcher-SubEnsures (check s) h covers = λ n. n
    sub_matcher-SubEnsures (number i) h covers = λ n. n
    sub_matcher-SubEnsures (call_exp_query n minimum) h covers = λ n. n
    sub_matcher-SubEnsures (sub_wild_query t) h covers = match_internal-Ensures t h covers
    sub_matcher-SubEnsures (sub_multi_query t) h covers = match_internal-Ensures t h covers

    negative_matchers-NegativesEnsure :
        (ns : Negations Pattern Regex)
        → NegationsCompiled ts source ns
        → Covers ts source Fail (negation_regexes ns)
        → NegativesEnsure (negative_matchers ts source S memo ns)
    negative_matchers-NegativesEnsure no_negations h covers = tt
    negative_matchers-NegativesEnsure (negation t index ns) h covers = (
      match_internal-Ensures t h.0 (All-append_left _ (regexes t) (negation_regexes ns) covers),
      negative_matchers-NegativesEnsure ns h.1
          (All-append_right _ (regexes t) (negation_regexes ns) covers),
    )
