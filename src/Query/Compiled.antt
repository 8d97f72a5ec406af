-- ===== src/Query/Compiled.antt =====
-- What src/query.rs relies on: the queries of a tree were compiled with its captures.
use weggli_enhance.Common.{ℕ, ◌<◌, List, All, length, bytes_eq}
use weggli_enhance.Text.{Bytes}
use weggli_enhance.Query.Tree.{
  Capture, display, variable, check, number, call_exp_query, sub_wild_query, sub_multi_query,
}
use weggli_enhance.Query.Engine.{TreeSitter, QueryMatch}
use weggli_enhance.Query.Tree.{
  Captures, no_captures, capture, Negations, no_negations, negation, QueryTree, query_tree,
  capture_list,
}
use weggli_enhance.Query.Match.{pair_eq}

module _ (ts : TreeSitter) (source : Bytes) where
  open ts use {Pattern, Regex, Node, pattern_count, query_matches}

  -- What tree-sitter ensures of a match: its pattern and its captures are those of the query.
  abbrev pub KnownMatch : Pattern → List (Capture Pattern Regex) → QueryMatch Node → Type 0
  KnownMatch query cs m =
      (m.pattern_index < pattern_count query) × All (λ (c : ℕ × Node). c.0 < length cs) m.captures

  -- Every query of the tree was compiled with the captures that stand beside it.
  abbrev mutual
    pub IsCompiled : QueryTree Pattern Regex → Type 0
    IsCompiled (query_tree query cs ns id) =
        ((root : Node) → All (KnownMatch query (capture_list cs)) (query_matches query root source))
        × CapturesCompiled cs
        × NegationsCompiled ns

    pub CapturesCompiled : Captures Pattern Regex → Type 0
    CapturesCompiled no_captures = Unit
    CapturesCompiled (capture c cs) = CaptureCompiled c × CapturesCompiled cs

    pub CaptureCompiled : Capture Pattern Regex → Type 0
    CaptureCompiled display = Unit
    CaptureCompiled (variable s constraint) = Unit
    CaptureCompiled (check s) = Unit
    CaptureCompiled (number i) = Unit
    CaptureCompiled (call_exp_query n minimum) = Unit
    CaptureCompiled (sub_wild_query t) = IsCompiled t
    CaptureCompiled (sub_multi_query t) = IsCompiled t

    pub NegationsCompiled : Negations Pattern Regex → Type 0
    NegationsCompiled no_negations = Unit
    NegationsCompiled (negation t index ns) = IsCompiled t × NegationsCompiled ns
