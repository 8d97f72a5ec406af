-- ===== src/Query/Memo.antt =====
-- The matcher of src/query.rs with its cache, beside a matcher without one.
use weggli_enhance.Common.{
  ℕ, ◌≡◌, refl, ap, true, false, List, [], ◌∷◌, ◌++◌, Option, none, some, any, All, All-append_left,
  All-append_right, All-mono, Distinct, entries-lookup, nat_eq, Outcome, done, panic, lookup,
}
use weggli_enhance.Text.{Bytes}
use weggli_enhance.Result.{QueryResult}
use weggli_enhance.Query.Tree.{
  Capture, display, variable, check, number, call_exp_query, sub_wild_query, sub_multi_query,
  Captures, no_captures, capture, Negations, no_negations, negation, QueryTree, query_tree,
  query_id, capture_list,
}
use weggli_enhance.Query.Engine.{TreeSitter, SubMatcher, NegativeMatcher}
use weggli_enhance.Query.Match.{
  Cache, pair_eq, cached, direct, negative_query_matched, filter_negations, match_tree,
  match_internal, sub_matchers, negative_matchers, sub_matcher, is_empty, merge_patterns, any_valid,
}
use weggli_enhance.Query.Agreement.{
  uncached, forget, Agree, Agrees, SubAgrees, SubsAgree, bind-Agrees, pure-Agrees, attempt-Agrees,
  branch-Agrees, collect-Agrees,
}

module _ (ts : TreeSitter) (source : Bytes) where
  open ts use {Pattern, Regex, Node, node_id, query_matches, pattern_count}

  -- The sub queries of a tree at every depth, those of its negations too, under their ids.
  unfoldable mutual
    pub sub_queries : QueryTree Pattern Regex → List (ℕ × QueryTree Pattern Regex)
    sub_queries (query_tree query cs ns id) = capture_queries cs ++ negation_queries ns

    capture_queries : Captures Pattern Regex → List (ℕ × QueryTree Pattern Regex)
    capture_queries no_captures = []
    capture_queries (capture c cs) = own_queries c ++ capture_queries cs

    own_queries : Capture Pattern Regex → List (ℕ × QueryTree Pattern Regex)
    own_queries display = []
    own_queries (variable s constraint) = []
    own_queries (check s) = []
    own_queries (number i) = []
    own_queries (call_exp_query n minimum) = []
    own_queries (sub_wild_query t) = (query_id t, t) ∷ sub_queries t
    own_queries (sub_multi_query t) = (query_id t, t) ∷ sub_queries t

    negation_queries : Negations Pattern Regex → List (ℕ × QueryTree Pattern Regex)
    negation_queries no_negations = []
    negation_queries (negation t index ns) = sub_queries t ++ negation_queries ns

  module _ (injective : (m n : Node) → node_id m ≡ node_id n → m ≡ n)
      (spec : ℕ → Node → Outcome (List QueryResult)) where
    -- `spec` gives the matches of every listed query under its id.
    abbrev Specified : List (ℕ × QueryTree Pattern Regex) → Type 0
    Specified =
        All λ (e : ℕ × QueryTree Pattern Regex). (n : Node) → uncached ts source e.1 n ≡ spec e.0 n

    abbrev NegationsAgree :
        List (NegativeMatcher ts source Cache)
        → List (NegativeMatcher ts source (Unit {0}))
        → Type 0
    NegationsAgree [] [] = Unit
    NegationsAgree (m ∷ ms) (p ∷ ps) =
        (m.previous_capture_index ≡ p.previous_capture_index)
        × ((n : Node) → Agrees ts source injective spec (m.run n) (p.run n))
        × NegationsAgree ms ps
    NegationsAgree _ _ = ⊥

    negative_query_matched-Agrees :
        (id : ℕ) (root : Node) (result : QueryResult) (ms : List (NegativeMatcher ts source Cache))
        (ps : List (NegativeMatcher ts source (Unit {0})))
        → NegationsAgree ms ps
        → Agrees ts source injective spec
            (negative_query_matched ts source Cache cached id root result ms)
            (negative_query_matched ts source (Unit {0}) direct id root result ps)
    unfolding negative_query_matched
    negative_query_matched-Agrees id root result [] [] h =
        pure-Agrees ts source injective spec false
    negative_query_matched-Agrees id root result (m ∷ ms) (p ∷ ps) h = rw h.0 (
        bind-Agrees ts source injective spec _ _ _ _ (h.1 root) λ negative_results.
          bind-Agrees ts source injective spec _ _ _ _
            (attempt-Agrees ts source injective spec
              (any_valid source id result p.previous_capture_index negative_results))
            (elim [
              | true ↦ pure-Agrees ts source injective spec true
              | false ↦ negative_query_matched-Agrees id root result ms ps h.2
            ]))
    negative_query_matched-Agrees id root result [] (p ∷ ps) h = absurd h
    negative_query_matched-Agrees id root result (m ∷ ms) [] h = absurd h

    filter_negations-Agrees :
        (id : ℕ) (root : Node) (ms : List (NegativeMatcher ts source Cache))
        (ps : List (NegativeMatcher ts source (Unit {0}))) (results : List QueryResult)
        → NegationsAgree ms ps
        → Agrees ts source injective spec
            (filter_negations ts source Cache cached id root ms results)
            (filter_negations ts source (Unit {0}) direct id root ps results)
    unfolding filter_negations
    filter_negations-Agrees id root ms ps [] h = pure-Agrees ts source injective spec []
    filter_negations-Agrees id root ms ps (r ∷ rs) h =
        bind-Agrees ts source injective spec _ _ _ _
          (negative_query_matched-Agrees id root r ms ps h)
          λ matched.
            bind-Agrees ts source injective spec _ _ _ _
              (filter_negations-Agrees id root ms ps rs h)
              λ rest. pure-Agrees ts source injective spec _

    match_tree-Agrees :
        (query : Pattern) (cs : List (Capture Pattern Regex)) (id : ℕ) (root : Node)
        (ss : List (Option (SubMatcher ts source Cache)))
        (us : List (Option (SubMatcher ts source (Unit {0}))))
        (ms : List (NegativeMatcher ts source Cache))
        (ps : List (NegativeMatcher ts source (Unit {0})))
        → SubsAgree ts source injective spec ss us
        → NegationsAgree ms ps
        → Agrees ts source injective spec
            (match_tree ts source Cache cached query cs ss ms id root)
            (match_tree ts source (Unit {0}) direct query cs us ps id root)
    unfolding match_tree
    match_tree-Agrees query cs id root ss us ms ps subs negs =
        bind-Agrees ts source injective spec _ _ _ _
          (collect-Agrees ts source injective spec ss us subs id cs
            (query_matches query root source) _)
          λ prs.
            branch-Agrees ts source injective spec (any prs is_empty) _ _ _ _
              (pure-Agrees ts source injective spec [])
              (bind-Agrees ts source injective spec _ _ _ _
                (attempt-Agrees ts source injective spec (merge_patterns source prs []))
                λ merged.
                  branch-Agrees ts source injective spec (is_empty merged) _ _ _ _
                    (pure-Agrees ts source injective spec [])
                    (filter_negations-Agrees id root ms ps merged negs))

    mutual
      unfolding match_internal sub_queries

      match_internal-Agrees :
          (t : QueryTree Pattern Regex)
          → Specified (sub_queries t)
          → (n : Node)
          → Agrees ts source injective spec
              (match_internal ts source Cache cached t n)
              (match_internal ts source (Unit {0}) direct t n)
      match_internal-Agrees (query_tree query cs ns id) h n =
          match_tree-Agrees query (capture_list cs) id n _ _ _ _
            (sub_matchers-SubsAgree cs
              (All-append_left _ (capture_queries cs) (negation_queries ns) h))
            (negative_matchers-NegationsAgree ns
              (All-append_right _ (capture_queries cs) (negation_queries ns) h))

      sub_matchers-SubsAgree :
          (cs : Captures Pattern Regex)
          → Specified (capture_queries cs)
          → SubsAgree ts source injective spec
              (sub_matchers ts source Cache cached cs)
              (sub_matchers ts source (Unit {0}) direct cs)
      sub_matchers-SubsAgree no_captures h = tt
      sub_matchers-SubsAgree (capture c cs) h = (
        sub_matcher-SubAgrees c (All-append_left _ (own_queries c) (capture_queries cs) h),
        sub_matchers-SubsAgree cs (All-append_right _ (own_queries c) (capture_queries cs) h),
      )

      sub_matcher-SubAgrees :
          (c : Capture Pattern Regex)
          → Specified (own_queries c)
          → SubAgrees ts source injective spec
              (sub_matcher ts source Cache cached c)
              (sub_matcher ts source (Unit {0}) direct c)
      sub_matcher-SubAgrees display h = tt
      sub_matcher-SubAgrees (variable s constraint) h = tt
      sub_matcher-SubAgrees (check s) h = tt
      sub_matcher-SubAgrees (number i) h = tt
      sub_matcher-SubAgrees (call_exp_query n minimum) h = tt
      sub_matcher-SubAgrees (sub_wild_query t) h = (refl, match_internal-Agrees t h.1, h.0)
      sub_matcher-SubAgrees (sub_multi_query t) h = (refl, match_internal-Agrees t h.1, h.0)

      negative_matchers-NegationsAgree :
          (ns : Negations Pattern Regex)
          → Specified (negation_queries ns)
          → NegationsAgree
              (negative_matchers ts source Cache cached ns)
              (negative_matchers ts source (Unit {0}) direct ns)
      negative_matchers-NegationsAgree no_negations h = tt
      negative_matchers-NegationsAgree (negation t index ns) h = (
        refl,
        match_internal-Agrees t (All-append_left _ (sub_queries t) (negation_queries ns) h),
        negative_matchers-NegationsAgree ns
            (All-append_right _ (sub_queries t) (negation_queries ns) h),
      )

module _ (ts : TreeSitter) (source : Bytes) where
  open ts use {Pattern, Regex, Node, node_id}

  -- The matches of the sub query with an id, looked up in the list of all.
  abbrev matches_of_id : List (ℕ × QueryTree Pattern Regex) → ℕ → Node → Outcome (List QueryResult)
  matches_of_id m q n = elim (lookup q m) [ some s ↦ uncached ts source s n | none ↦ panic ]

  forget_of_Agree :
      (injective : (m n : Node) → node_id m ≡ node_id n → m ≡ n)
      (spec : ℕ → Node → Outcome (List QueryResult)) (x : Outcome (List QueryResult × Cache))
      (y : Outcome (List QueryResult × Unit {0}))
      → Agree ts source injective spec x y
      → forget x ≡ forget y
  forget_of_Agree injective spec (done p) (done q) h = ap done h.0
  forget_of_Agree injective spec panic panic h = refl
  forget_of_Agree injective spec (done p) panic h = absurd h
  forget_of_Agree injective spec panic (done q) h = absurd h

-- The cache of sub query results is transparent. Where nodes are told apart by their ids, and no two
-- sub queries of the tree have one id, `match_internal` from an empty cache finds the matches, or
-- panics, as the matcher does that runs every sub query anew.
pub match_internal-uncached :
    (ts : TreeSitter) (source : Bytes)
    → ((m n : ts.Node) → ts.node_id m ≡ ts.node_id n → m ≡ n)
    → (t : QueryTree ts.Pattern ts.Regex) (root : ts.Node) → Distinct (sub_queries ts source t)
    → forget (match_internal ts source Cache cached t root []) ≡ uncached ts source t root
match_internal-uncached ts source injective t root distinct =
    let m = sub_queries ts source t in
    let spec = matches_of_id ts source m in
    forget_of_Agree ts source injective spec _ _ (
      (match_internal-Agrees ts source injective spec t
          (All-mono (λ e. lookup e.0 m ≡ some e.1)
            (λ e. (n : ts.Node) → uncached ts source e.1 n ≡ spec e.0 n) m
            (λ e found n. rw (found, matches_of_id)) (entries-lookup m distinct))
          root).at_sound
        [] (λ q n v found. cc))
