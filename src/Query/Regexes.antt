-- ===== src/Query/Regexes.antt =====
-- The regular expressions of a query tree of src/query.rs, and their errors. fancy-regex gives an error
-- in place of an answer where it backtracks too far, on which `process_match` panics.
use weggli_enhance.Common.{
  ◌≡◌, Bool, List, [], ◌∷◌, ◌++◌, Option, none, some, All, All-Member, All-append_left,
  All-append_right, Member, done, bytes_eq,
}
use weggli_enhance.Text.{Bytes, slice}
use weggli_enhance.Query.Tree.{
  Capture, display, variable, check, number, call_exp_query, sub_wild_query, sub_multi_query,
  Captures, no_captures, capture, Negations, no_negations, negation, QueryTree, query_tree,
  capture_list,
}
use weggli_enhance.Query.Engine.{TreeSitter}

abbrev pub constraint_regexes : {Regex : Type 0} → Option (Bool × Regex) → List Regex
constraint_regexes none = []
constraint_regexes (some (negative, regex)) = regex ∷ []

module _ {Pattern Regex : Type 0} where
  -- The expressions of the constraints of a tree, those of its sub queries and negations too.
  unfoldable mutual
    pub regexes : QueryTree Pattern Regex → List Regex
    regexes (query_tree query cs ns id) = capture_regexes cs ++ negation_regexes ns

    pub capture_regexes : Captures Pattern Regex → List Regex
    capture_regexes no_captures = []
    capture_regexes (capture c cs) = own_regexes c ++ capture_regexes cs

    pub own_regexes : Capture Pattern Regex → List Regex
    own_regexes display = []
    own_regexes (variable s constraint) = constraint_regexes constraint
    own_regexes (check s) = []
    own_regexes (number i) = []
    own_regexes (call_exp_query n minimum) = []
    own_regexes (sub_wild_query t) = regexes t
    own_regexes (sub_multi_query t) = regexes t

    pub negation_regexes : Negations Pattern Regex → List Regex
    negation_regexes no_negations = []
    negation_regexes (negation t index ns) = regexes t ++ negation_regexes ns

module _ (ts : TreeSitter) (source : Bytes) where
  -- The expression gives an error on the text of some node.
  abbrev pub Errs : ts.Regex → Type 0
  Errs r =
      (n : ts.Node) × (text : Bytes) × (slice source (ts.byte_range n) ≡ done text)
      × (ts.is_match r text ≡ none)

  -- A regular expression of the tree gives an error.
  abbrev pub RegexFails : QueryTree ts.Pattern ts.Regex → Type 0
  RegexFails t = (r : ts.Regex) × Member r (regexes t) × Errs r

  module _ (Fail : Type 0) where
    -- An error of one of these expressions is the failure.
    abbrev pub Covers : List ts.Regex → Type 0
    Covers = All λ r. Errs r → Fail

    pub capture_list-Covers :
        (cs : Captures ts.Pattern ts.Regex)
        → Covers (capture_regexes cs)
        → All (λ (c : Capture ts.Pattern ts.Regex). Covers (own_regexes c)) (capture_list cs)
    unfolding capture_list capture_regexes
    capture_list-Covers no_captures h = tt
    capture_list-Covers (capture c cs) h = (
      All-append_left _ (own_regexes c) (capture_regexes cs) h,
      capture_list-Covers cs (All-append_right _ (own_regexes c) (capture_regexes cs) h),
    )

  pub regexes-Covers : (t : QueryTree ts.Pattern ts.Regex) → Covers (RegexFails t) (regexes t)
  regexes-Covers t = All-Member _ (regexes t) λ r member errs. (r, member, errs)
