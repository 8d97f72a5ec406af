-- ===== src/Query/Tree.antt =====
-- The data of src/query.rs and src/capture.rs. A vector inside the recursive types is a type of the
-- mutual block. `Pattern` is a compiled tree-sitter query, and `Regex` a compiled regular expression.
use weggli_enhance.Common.{
  ℕ, Bool, true, false, List, [], ◌∷◌, ◌++◌, Option, any, bytes_beq, if◌then◌else◌,
}
use weggli_enhance.Common.Int.{ℤ}
use weggli_enhance.Text.{Bytes}

mutual
  -- `Capture`. A variable has an optional constraint: is it negative, and the expression.
  pub data Capture (Pattern Regex : Type 0) : Type 0 where
    display : Capture Pattern Regex
    variable : Bytes → Option (Bool × Regex) → Capture Pattern Regex
    check : Bytes → Capture Pattern Regex
    number : ℤ → Capture Pattern Regex
    call_exp_query : (argument_count : ℕ) → (minimum_mode : Bool) → Capture Pattern Regex
    sub_wild_query : QueryTree Pattern Regex → Capture Pattern Regex
    sub_multi_query : QueryTree Pattern Regex → Capture Pattern Regex

  -- `Vec<Capture>`
  pub data Captures (Pattern Regex : Type 0) : Type 0 where
    no_captures : Captures Pattern Regex
    capture : Capture Pattern Regex → Captures Pattern Regex → Captures Pattern Regex

  -- `Vec<NegativeQuery>`, each with its query and the previous capture's index.
  pub data Negations (Pattern Regex : Type 0) : Type 0 where
    no_negations : Negations Pattern Regex
    negation :
        QueryTree Pattern Regex
        → (previous_capture_index : ℤ) → Negations Pattern Regex
        → Negations Pattern Regex

  -- `QueryTree`, without the set of variables that only sizes a hash map.
  pub data QueryTree (Pattern Regex : Type 0) : Type 0 where
    query_tree :
        (query : Pattern)
        → Captures Pattern Regex
        → Negations Pattern Regex
        → (id : ℕ) → QueryTree Pattern Regex

module _ {Pattern Regex : Type 0} where
  abbrev pub query_id : QueryTree Pattern Regex → ℕ
  query_id (query_tree q cs ns id) = id

  abbrev pub is_sub_multi_query : Capture Pattern Regex → Bool
  is_sub_multi_query (sub_multi_query t) = true
  is_sub_multi_query _ = false

  unfoldable pub capture_list : Captures Pattern Regex → List (Capture Pattern Regex)
  capture_list no_captures = []
  capture_list (capture c cs) = c ∷ capture_list cs

-- `HashSet::insert`, on a list with no value twice.
abbrev pub insert_new : Bytes → List Bytes → List Bytes
insert_new v vs = if any vs (λ w. bytes_beq w v) then vs else vs ++ v ∷ []

abbrev pub extend : List Bytes → List Bytes → List Bytes
extend vs [] = vs
extend vs (w ∷ ws) = extend (insert_new w vs) ws

module _ {Pattern Regex : Type 0} where
  -- `QueryTree::variables`: those of the captures, of the sub queries and of the negations.
  unfoldable mutual
    pub variables : QueryTree Pattern Regex → List Bytes
    variables (query_tree q cs ns id) = negation_variables (captured_variables [] cs) ns

    pub captured_variables : List Bytes → Captures Pattern Regex → List Bytes
    captured_variables result no_captures = result
    captured_variables result (capture c cs) = captured_variables (own_variables result c) cs

    pub own_variables : List Bytes → Capture Pattern Regex → List Bytes
    own_variables result display = result
    own_variables result (variable s constraint) = insert_new s result
    own_variables result (check s) = result
    own_variables result (number i) = result
    own_variables result (call_exp_query n minimum) = result
    own_variables result (sub_wild_query t) = extend result (variables t)
    own_variables result (sub_multi_query t) = extend result (variables t)

    pub negation_variables : List Bytes → Negations Pattern Regex → List Bytes
    negation_variables result no_negations = result
    negation_variables result (negation t i ns) =
        negation_variables (extend result (variables t)) ns

  -- `QueryTree::identifiers`: negations hold none that a match needs.
  unfoldable mutual
    pub identifiers : QueryTree Pattern Regex → List Bytes
    identifiers (query_tree q cs ns id) = captured_identifiers [] cs

    pub captured_identifiers : List Bytes → Captures Pattern Regex → List Bytes
    captured_identifiers result no_captures = result
    captured_identifiers result (capture c cs) = captured_identifiers (own_identifiers result c) cs

    pub own_identifiers : List Bytes → Capture Pattern Regex → List Bytes
    own_identifiers result display = result
    own_identifiers result (variable s constraint) = result
    own_identifiers result (check s) = result ++ s ∷ []
    own_identifiers result (number i) = result
    own_identifiers result (call_exp_query n minimum) = result
    own_identifiers result (sub_wild_query t) = result ++ identifiers t
    own_identifiers result (sub_multi_query t) = result ++ identifiers t
