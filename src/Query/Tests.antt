-- ===== src/Query/Tests.antt =====
-- A run of src/query.rs, `$x = _($y)` with a negation on the source `a=b;`, and of the theorems.
use weggli_enhance.Common.{
  ℕ, ◌≡◌, refl, arith, List, [], ◌∷◌, none, some, Bool, true, false, All, Distinct, nat_eq, done,
  panic, ◌⊎◌, lift,
}
use weggli_enhance.Common.Int.{pos}
use weggli_enhance.Text.{Bytes, Range, codes, range, is_sliceable, slice}
use weggli_enhance.Result.{QueryResult, merge, merge_results, value}
use weggli_enhance.Result.Bindings.{IsWellFormed}
use weggli_enhance.Result.Equality.{dedup}
use weggli_enhance.Query.Tree.{
  Captures, QueryTree, query_tree, variable, sub_wild_query, no_captures, capture, no_negations,
  negation, capture_list,
}
use weggli_enhance.Query.Engine.{TreeSitter, QueryMatch, process_match}
use weggli_enhance.Query.Match.{
  matches, match_internal, match_tree, collect, cached, extend_at, empty_results, merge_patterns,
  filter_negations, negative_query_matched, any_valid,
}
use weggli_enhance.Query.Agreement.{uncached}
use weggli_enhance.Query.Memo.{sub_queries}
use weggli_enhance.Query.Regexes.{RegexFails}
use weggli_enhance.Query.Progress.{IsSane}
use weggli_enhance.Query.Compiled.{IsCompiled, KnownMatch}
use weggli_enhance.Query.Matches.{matches-IsWellFormed, matches-uncached}

abbrev pub source : Bytes
source = codes "a=b;"

pub data Node : Type 0 where
  statement left right : Node

pub data Pattern : Type 0 where
  outer inner never : Pattern

abbrev node_id : Node → ℕ
node_id statement = 0
node_id left = 1
node_id right = 2

abbrev byte_range : Node → Range
byte_range statement = range 0 4
byte_range left = range 0 1
byte_range right = range 2 3

abbrev query_matches : Pattern → Node → Bytes → List (QueryMatch Node)
query_matches outer statement s =
    record { pattern_index = 0; captures = (0, left) ∷ (1, right) ∷ [] } ∷ []
query_matches inner right s = record { pattern_index = 0; captures = (0, right) ∷ [] } ∷ []
query_matches p n s = []

abbrev pub tree_sitter : TreeSitter
tree_sitter = record {
  Pattern = Pattern;
  Regex = Bool;
  Node = Node;
  node_id = node_id;
  byte_range = byte_range;
  named_child_count = λ n. 0;
  pattern_count = λ p. 1;
  query_matches = query_matches;
  is_match = λ answer text. some answer;
}

abbrev inner_captures : Captures Pattern Bool
inner_captures = capture (variable (codes "$y") none) no_captures

abbrev outer_captures : Captures Pattern Bool
outer_captures =
    capture (variable (codes "$x") (some (false, true)))
      (capture (sub_wild_query (query_tree inner inner_captures no_negations 1)) no_captures)

-- `$x = _($y)`, where `$x` has a constraint, without `never`.
abbrev pub query : QueryTree Pattern Bool
query =
    query_tree outer outer_captures
      (negation (query_tree never no_captures no_negations 2) (pos 0) no_negations) 0

ranges : (n : Node) → is_sliceable source (byte_range n) ≡ true
unfolding is_sliceable
ranges statement = refl
ranges left = refl
ranges right = refl

pub tree_sitter-IsSane : IsSane tree_sitter source
tree_sitter-IsSane = record { ranges = ranges }

outer-KnownMatch :
    (root : Node)
    → All
        (KnownMatch tree_sitter source outer (capture_list outer_captures))
        (query_matches outer root source)
unfolding capture_list
outer-KnownMatch statement = ((omega arith, (omega arith, (omega arith, tt))), tt)
outer-KnownMatch left = tt
outer-KnownMatch right = tt

inner-KnownMatch :
    (root : Node)
    → All
        (KnownMatch tree_sitter source inner (capture_list inner_captures))
        (query_matches inner root source)
unfolding capture_list
inner-KnownMatch statement = tt
inner-KnownMatch left = tt
inner-KnownMatch right = ((omega arith, (omega arith, tt)), tt)

pub query-IsCompiled : IsCompiled tree_sitter source query
query-IsCompiled =
    (outer-KnownMatch, (tt, ((inner-KnownMatch, (tt, tt), tt), tt)), ((λ root. tt, tt, tt), tt))

matches-IsWellFormed_example :
    ((results : List QueryResult) × (matches tree_sitter source query statement ≡ done results)
      × All (IsWellFormed source) results)
    ⊎ ((matches tree_sitter source query statement ≡ panic) × RegexFails tree_sitter source query)
matches-IsWellFormed_example =
    matches-IsWellFormed tree_sitter source query statement tree_sitter-IsSane query-IsCompiled

node_id-injective : (m n : Node) → node_id m ≡ node_id n → m ≡ n
node_id-injective statement statement h = refl
node_id-injective statement left h = absurd (omega arith)
node_id-injective statement right h = absurd (omega arith)
node_id-injective left statement h = absurd (omega arith)
node_id-injective left left h = refl
node_id-injective left right h = absurd (omega arith)
node_id-injective right statement h = absurd (omega arith)
node_id-injective right left h = absurd (omega arith)
node_id-injective right right h = refl

sub_queries-Distinct : Distinct (sub_queries tree_sitter source query)
unfolding sub_queries
sub_queries-Distinct = (refl, tt)

matches-uncached_example :
    matches tree_sitter source query statement
    ≡ lift dedup (uncached tree_sitter source query statement)
matches-uncached_example =
    matches-uncached tree_sitter source query statement node_id-injective sub_queries-Distinct

-- The match of the run: both sides of `=`, and `$y` from the sub query.
abbrev expected : QueryResult
expected = record {
  captures =
      record { range = range 0 1; query_id = 0; capture_idx = 0 }
      ∷ record { range = range 2 3; query_id = 0; capture_idx = 1 }
      ∷ record { range = range 2 3; query_id = 1; capture_idx = 0 }
      ∷ [];
  vars = (codes "$x", 0) ∷ (codes "$y", 2) ∷ [];
  function = range 0 1;
}

run : matches tree_sitter source query statement ≡ done (expected ∷ [])
unfolding matches match_internal capture_list match_tree collect process_match slice is_sliceable
    cached extend_at empty_results merge_patterns filter_negations negative_query_matched
    merge_results merge value any_valid dedup
run = refl

-- The same run where the constraint of `$x` gives an error.
abbrev erring : TreeSitter
erring = record {
  Pattern = Pattern;
  Regex = Bool;
  Node = Node;
  node_id = node_id;
  byte_range = byte_range;
  named_child_count = λ n. 0;
  pattern_count = λ p. 1;
  query_matches = query_matches;
  is_match = λ answer text. none;
}

run-erring : matches erring source query statement ≡ panic
unfolding matches match_internal capture_list match_tree collect process_match slice is_sliceable
    cached extend_at empty_results merge_patterns filter_negations negative_query_matched
    merge_results merge value any_valid dedup
run-erring = refl
