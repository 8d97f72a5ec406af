-- ===== src/Query/Match.antt =====
-- `QueryTree::match_internal` and `QueryTree::matches` of src/query.rs.
use weggli_enhance.Common.{
  ℕ, zero, suc, ◌≡◌, Bool, true, false, not, ◌&&◌, List, [], ◌∷◌, ◌++◌, Option, none, some, arith,
  ltb, nat_beq, if◌then◌else◌, any, Outcome, done, panic, lookup, insert, HasEquality, nat_eq,
  bytes_eq, ◌↔◌,
}
use weggli_enhance.Common.Int.{ℤ}
use weggli_enhance.Text.{Bytes}
use weggli_enhance.Result.{QueryResult, merge, merge_results, get_capture_result, start_offset}
use weggli_enhance.Result.Equality.{dedup}
use weggli_enhance.Query.Tree.{
  Capture, display, variable, check, number, call_exp_query, sub_wild_query, sub_multi_query,
  Captures, no_captures, capture, Negations, no_negations, negation, QueryTree, query_tree,
  query_id, capture_list,
}
use weggli_enhance.Query.Engine.{
  TreeSitter, QueryMatch, Action, pure, attempt, ◌>>=◌, as_u32, successor, Matcher, SubMatcher,
  NegativeMatcher, process_match,
}

-- `pattern_results[i].extend(rs)`
unfoldable pub extend_at :
    ℕ → List QueryResult → List (List QueryResult) → Outcome (List (List QueryResult))
extend_at i rs [] = panic
extend_at zero rs (pr ∷ prs) = done ((pr ++ rs) ∷ prs)
extend_at (suc i) rs (pr ∷ prs) = elim (extend_at i rs prs) [
  | done prs' ↦ done (pr ∷ prs')
  | panic ↦ panic
]

unfoldable pub empty_results : ℕ → List (List QueryResult)
empty_results zero = []
empty_results (suc n) = [] ∷ empty_results n

abbrev pub is_empty {ℓ} : {A : Type ℓ} → List A → Bool
is_empty [] = true
is_empty (x ∷ xs) = false

-- The loop that merges the results of all patterns in order; it stops when nothing is left.
unfoldable pub merge_patterns :
    Bytes → List (List QueryResult) → List QueryResult → Outcome (List QueryResult)
merge_patterns source [] merged = done merged
merge_patterns source (pr ∷ prs) [] = merge_patterns source prs pr
merge_patterns source (pr ∷ prs) (m ∷ ms) = elim (merge_results (m ∷ ms) pr source true) [
  | panic ↦ panic
  | done [] ↦ done []
  | done (n ∷ ns) ↦ merge_patterns source prs (n ∷ ns)
]

-- The ordering test of a negative match: not before the end of the capture at `index`, and not
-- behind the start of the next one.
unfoldable pub is_between : ℕ → QueryResult → ℤ → QueryResult → Bool
is_between id result index n =
    let too_early : Bool = elim (get_capture_result result id (as_u32 index)) [
      | some c ↦ ltb (start_offset n) c.range.end
      | none ↦ false
    ] in
    let too_late : Bool = elim (get_capture_result result id (as_u32 (successor index))) [
      | some c ↦ ltb c.range.start (start_offset n)
      | none ↦ false
    ] in
    not too_early && not too_late

-- Some of the negative matches is consistent with the result and stands between the captures.
unfoldable pub any_valid : Bytes → ℕ → QueryResult → ℤ → List QueryResult → Outcome Bool
any_valid source id result index [] = done false
any_valid source id result index (n ∷ ns) = elim (merge n result source false) [
  | panic ↦ panic
  | done none ↦ any_valid source id result index ns
  | done (some m) ↦ elim (is_between id result index n) [
    | true ↦ done true
    | false ↦ any_valid source id result index ns
  ]
]

module _ (ts : TreeSitter) (source : Bytes) (S : Type 0)
    (memo : ℕ → ℕ → Action S (List QueryResult) → Action S (List QueryResult)) where
  open ts use {Pattern, Regex, Node, pattern_count, query_matches}

  -- The loop over the matches of the tree-sitter query.
  unfoldable pub collect :
      ℕ
      → List (Capture Pattern Regex)
      → List (Option (SubMatcher ts source S))
      → List (QueryMatch Node)
      → List (List QueryResult)
      → Action S (List (List QueryResult))
  collect id cs subs [] prs = pure prs
  collect id cs subs (m ∷ ms) prs = do
    rs ← process_match ts source S memo id cs subs m
    prs' ← attempt (extend_at m.pattern_index rs prs)
    collect id cs subs ms prs'

  -- The closure of `any` over the negations, which stops at the first that matches.
  unfoldable pub negative_query_matched :
      ℕ → Node → QueryResult → List (NegativeMatcher ts source S) → Action S Bool
  negative_query_matched id root result [] = pure false
  negative_query_matched id root result (neg ∷ negs) = do
    negative_results ← neg.run root
    matched ← attempt (any_valid source id result neg.previous_capture_index negative_results)
    elim matched [ true ↦ pure true | false ↦ negative_query_matched id root result negs ]

  unfoldable pub filter_negations :
      ℕ → Node → List (NegativeMatcher ts source S) → List QueryResult → Action S (List QueryResult)
  filter_negations id root negs [] = pure []
  filter_negations id root negs (result ∷ results) = do
    matched ← negative_query_matched id root result negs
    rest ← filter_negations id root negs results
    pure (if matched then rest else result ∷ rest)

  -- The body of `match_internal`, over the captures of the tree and the matchers of its sub queries.
  unfoldable pub match_tree :
      Pattern
      → List (Capture Pattern Regex)
      → List (Option (SubMatcher ts source S))
      → List (NegativeMatcher ts source S)
      → ℕ
      → Matcher ts source S
  match_tree query cs subs negs id root = do
    pattern_results ←
        collect id cs subs (query_matches query root source) (empty_results (pattern_count query))
    elim (any pattern_results is_empty) [
      | true ↦ pure []
      | false ↦ do
        merged_results ← attempt (merge_patterns source pattern_results [])
        elim (is_empty merged_results) [
          | true ↦ pure []
          | false ↦ filter_negations id root negs merged_results
        ]
    ]

  unfoldable mutual
    pub match_internal : QueryTree Pattern Regex → Matcher ts source S
    match_internal (query_tree query cs ns id) =
        match_tree query (capture_list cs) (sub_matchers cs) (negative_matchers ns) id

    pub sub_matchers : Captures Pattern Regex → List (Option (SubMatcher ts source S))
    sub_matchers no_captures = []
    sub_matchers (capture c cs) = sub_matcher c ∷ sub_matchers cs

    pub sub_matcher : Capture Pattern Regex → Option (SubMatcher ts source S)
    sub_matcher (sub_wild_query t) = some (record { id = query_id t; run = match_internal t })
    sub_matcher (sub_multi_query t) = some (record { id = query_id t; run = match_internal t })
    sub_matcher display = none
    sub_matcher (variable s constraint) = none
    sub_matcher (check s) = none
    sub_matcher (number i) = none
    sub_matcher (call_exp_query n minimum) = none

    pub negative_matchers : Negations Pattern Regex → List (NegativeMatcher ts source S)
    negative_matchers no_negations = []
    negative_matchers (negation t index ns) =
        record { run = match_internal t; previous_capture_index = index } ∷ negative_matchers ns

abbrev pub pair_beq : ℕ × ℕ → ℕ × ℕ → Bool
pair_beq (a, b) (c, d) = nat_beq a c && nat_beq b d

pub pair_beq_iff : (p q : ℕ × ℕ) → (pair_beq p q ≡ true) ↔ (p ≡ q)
pair_beq_iff (a, b) (c, d) = ground arith

-- The key of the cache: the sub query's id and the node's id.
instance abbrev pub pair_eq : HasEquality (ℕ × ℕ)
pair_eq = record { same = pair_beq; same_iff = pair_beq_iff }

abbrev pub Cache : Type 0
Cache = List ((ℕ × ℕ) × List QueryResult)

-- The look-up in `process_match`: run the sub query and store its results, or use those stored.
unfoldable pub cached : ℕ → ℕ → Action Cache (List QueryResult) → Action Cache (List QueryResult)
cached query_id node_id run cache = elim (lookup (query_id, node_id) cache) [
  | some r ↦ done (r, cache)
  | none ↦ elim (run cache) [
    | panic ↦ panic
    | done (v, cache') ↦ done (v, insert (query_id, node_id) v cache')
  ]
]

-- Every sub query run anew.
unfoldable pub direct :
    ℕ → ℕ → Action (Unit {0}) (List QueryResult) → Action (Unit {0}) (List QueryResult)
direct query_id node_id run = run

-- `QueryTree::matches`: a fresh cache, and no two equal results in a row.
unfoldable pub matches :
    (ts : TreeSitter) (source : Bytes)
    → QueryTree ts.Pattern ts.Regex
    → ts.Node
    → Outcome (List QueryResult)
matches ts source t root = elim (match_internal ts source Cache cached t root []) [
  | panic ↦ panic
  | done (results, cache) ↦ done (dedup results)
]
