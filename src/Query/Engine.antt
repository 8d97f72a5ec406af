-- ===== src/Query/Engine.antt =====
-- `match_internal` and `process_match` of src/query.rs. tree-sitter and the regular expressions are
-- parameters. The matcher is written over any state and any way to memoize a sub query, so that the
-- program's (`cached` over the cache) and a matcher without a cache are instances of one text.
use weggli_enhance.Common.{
  ℕ, zero, suc, ◌+◌, ◌-◌, ◌%◌, ◌^◌, Bool, true, false, not, ◌&&◌, ◌||◌, List, [], ◌∷◌, ◌++◌, Option,
  none, some, ltb, nat_beq, if◌then◌else◌, length, get_elem?, bytes_eq, Outcome, done, panic,
  unwrap, insert,
}
use weggli_enhance.Common.Int.{ℤ, pos, negsuc, int_beq}
use weggli_enhance.Text.{Bytes, Range, range, slice}
use weggli_enhance.Number.{parse_number_literal}
use weggli_enhance.Result.{CaptureResult, QueryResult, Vars, merge_results}
use weggli_enhance.Query.Tree.{
  Capture, display, variable, check, number, call_exp_query, sub_wild_query, sub_multi_query,
  is_sub_multi_query,
}

-- A match of a tree-sitter query: the pattern's index, and each capture's index with its node.
pub record QueryMatch (Node : Type 0) : Type 0 where
  pub pattern_index : ℕ
  pub captures : List (ℕ × Node)

-- What the program uses of tree-sitter and of fancy-regex; `is_match` fails on an `Err`.
pub record TreeSitter : Type 1 where
  pub Pattern : Type 0
  pub Regex : Type 0
  pub Node : Type 0
  pub node_id : Node → ℕ
  pub byte_range : Node → Range
  pub named_child_count : Node → ℕ
  pub pattern_count : Pattern → ℕ
  pub query_matches : Pattern → Node → Bytes → List (QueryMatch Node)
  pub is_match : Regex → Bytes → Option Bool

-- Code that may panic and keeps a state.
abbrev pub Action : Type 0 → Type 0 → Type 0
Action S A = S → Outcome (A × S)

module _ {S : Type 0} where
  abbrev pub pure : {A : Type 0} → A → Action S A
  pure a s = done (a, s)

  abbrev pub attempt : {A : Type 0} → Outcome A → Action S A
  attempt (done a) s = done (a, s)
  attempt panic s = panic

  infixl 5 ◌>>=◌
  abbrev pub ◌>>=◌ : {A B : Type 0} → Action S A → (A → Action S B) → Action S B
  ◌>>=◌ m f s = elim (m s) [ done (a, s') ↦ f a s' | panic ↦ panic ]

-- `index as u32` of an `i64`.
unfoldable pub as_u32 : ℤ → ℕ
as_u32 (pos n) = n % 2 ^ 32
as_u32 (negsuc n) = 2 ^ 32 - 1 - n % 2 ^ 32

unfoldable pub successor : ℤ → ℤ
successor (pos n) = pos (n + 1)
successor (negsuc zero) = pos 0
successor (negsuc (suc n)) = negsuc n

module _ (ts : TreeSitter) (source : Bytes) where
  open ts use {Pattern, Regex, Node, node_id, byte_range, named_child_count, is_match}

  -- The variables of `process_match`. A sub query is the index of its capture and the captured node.
  pub record Progress : Type 0 where
    pub r : List CaptureResult
    pub vars : Vars
    pub subqueries : List (ℕ × Node)

  -- The test of a variable's regular expression; an `Err` panics.
  unfoldable pub passes : Option (Bool × Regex) → Node → Outcome Bool
  passes none node = done true
  passes (some (negative, regex)) node = elim (slice source (byte_range node)) [
    | panic ↦ panic
    | done text ↦ elim (is_match regex text) [
      | none ↦ panic
      | some m ↦ done (not (m && negative || not m && not negative))
    ]
  ]

  unfoldable pub has_value : ℤ → Node → Outcome Bool
  has_value i node = elim (slice source (byte_range node)) [
    | panic ↦ panic
    | done text ↦ done (elim (parse_number_literal text) [ none ↦ false | some y ↦ int_beq i y ])
  ]

  unfoldable pub has_arguments : ℕ → Bool → Node → Bool
  has_arguments len minimum node =
      let actual = named_child_count node in
      if minimum then not (ltb actual len) else nat_beq actual len

  -- The `match capture` of `process_match`; `none` is its early return of no result.
  unfoldable pub inspect : Capture Pattern Regex → ℕ → Node → Progress → Outcome (Option Progress)
  unfolding passes has_value has_arguments
  inspect display index node p = done (some p)
  inspect (check s) index node p = done (some p)
  inspect (variable s constraint) index node p = elim (passes constraint node) [
    | panic ↦ panic
    | done false ↦ done none
    | done true ↦ done (some (record p { vars = insert s (length p.r - 1) p.vars }))
  ]
  inspect (sub_wild_query t) index node p =
      done (some (record p { subqueries = p.subqueries ++ (index, node) ∷ [] }))
  inspect (sub_multi_query t) index node p =
      done (some (record p { subqueries = p.subqueries ++ (index, node) ∷ [] }))
  inspect (call_exp_query len minimum) index node p =
      done (if has_arguments len minimum node then some p else none)
  inspect (number i) index node p = elim (has_value i node) [
    | panic ↦ panic
    | done same ↦ done (if same then some p else none)
  ]

  -- Sub queries of a compound statement are not part of the result.
  unfoldable pub record_capture : ℕ → Capture Pattern Regex → ℕ → Node → Progress → Progress
  record_capture id c index node p = if is_sub_multi_query c then p else record p {
    r = p.r ++ record { range = byte_range node; query_id = id; capture_idx = index } ∷ [];
  }

  -- The loop of `process_match` over the captures of a match.
  unfoldable pub scan :
      ℕ → List (Capture Pattern Regex) → List (ℕ × Node) → Progress → Outcome (Option Progress)
  unfolding inspect record_capture
  scan id captures [] p = done (some p)
  scan id captures ((index, node) ∷ cs) p = elim (get_elem? captures index) [
    | none ↦ panic
    | some c ↦ elim (inspect c index node (record_capture id c index node p)) [
      | panic ↦ panic
      | done none ↦ done none
      | done (some p') ↦ scan id captures cs p'
    ]
  ]

  unfoldable pub first_range : List CaptureResult → Range
  first_range [] = range 0 0
  first_range (c ∷ cs) = c.range

  abbrev pub nothing_yet : Progress
  nothing_yet = record { r = []; vars = []; subqueries = [] }

  -- The result of the match before its sub queries.
  unfoldable pub own_result : Progress → QueryResult
  unfolding first_range
  own_result p = record { captures = p.r; vars = p.vars; function = first_range p.r }

  module _ (S : Type 0) where
    abbrev pub Matcher : Type 0
    Matcher = Node → Action S (List QueryResult)

    -- What a capture with a sub query brings to run it: the query's id and its matcher.
    pub record SubMatcher : Type 0 where
      pub id : ℕ
      pub run : Matcher

    unfoldable pub find_sub : List (Option SubMatcher) → ℕ → Option SubMatcher
    find_sub [] i = none
    find_sub (t ∷ ts) zero = t
    find_sub (t ∷ ts) (suc i) = find_sub ts i

    pub record NegativeMatcher : Type 0 where
      pub run : Matcher
      pub previous_capture_index : ℤ

    module _ (memo : ℕ → ℕ → Action S (List QueryResult) → Action S (List QueryResult)) where
      -- The fold of `process_match` over its sub queries.
      unfoldable pub run_subqueries :
          List (Option SubMatcher)
          → List (ℕ × Node)
          → List QueryResult
          → Action S (List QueryResult)
      run_subqueries subs [] results = pure results
      run_subqueries subs (q ∷ qs) [] = run_subqueries subs qs []
      run_subqueries subs ((index, node) ∷ qs) (r ∷ rs) = do
        t ← attempt (unwrap (find_sub subs index))
        sub_results ← memo t.id (node_id node) (t.run node)
        results ← attempt (merge_results (r ∷ rs) sub_results source false)
        run_subqueries subs qs results

      unfoldable pub process_match :
          ℕ
          → List (Capture Pattern Regex)
          → List (Option SubMatcher)
          → QueryMatch Node
          → Action S (List QueryResult)
      unfolding scan run_subqueries own_result find_sub
      process_match id captures subs m = do
        scanned ← attempt (scan id captures m.captures nothing_yet)
        elim scanned [
          | none ↦ pure []
          | some p ↦ run_subqueries subs p.subqueries (own_result p ∷ [])
        ]
