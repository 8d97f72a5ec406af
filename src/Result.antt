-- ===== src/Result.antt =====
-- src/result.rs: partial matches of a query, and how two of them are merged.
-- The hash map of the variables is an association list in its order of iteration.
pub mod Bindings
pub mod Adopt
pub mod Merge
pub mod Chain
pub mod Products
pub mod Equality
pub mod Tests
use weggli_enhance.Common.{
  ℕ, ◌+◌, ◌≡◌, refl, Bool, true, false, ◌&&◌, not, List, [], ◌∷◌, ◌++◌, Option, none, some, arith,
  leb, nat_beq, if◌then◌else◌, length, get_elem?, any, Outcome, done, panic, ◌>>=◌, lift, unwrap,
  lookup, insert, ◌==◌, nat_eq, bytes_eq,
}
use weggli_enhance.Text.{Bytes, Range, slice}

-- One captured node: its source range, the id of its query and its index there.
pub record CaptureResult : Type 0 where
  pub range : Range
  pub query_id : ℕ
  pub capture_idx : ℕ

abbrev pub Vars : Type 0
Vars = List (Bytes × ℕ)

pub record QueryResult : Type 0 where
  pub captures : List CaptureResult
  pub vars : Vars
  pub function : Range

abbrev pub start_offset : QueryResult → ℕ
start_offset r = r.function.start

abbrev pub function_range : QueryResult → Range
function_range r = r.function

-- `&source[self.captures[i].range.clone()]`
unfoldable pub captured : QueryResult → ℕ → Bytes → Outcome Bytes
captured r i source = do c ← unwrap (get_elem? r.captures i); slice source c.range

-- The captured value of a variable. It panics where an index or a range is out of bounds.
unfoldable pub value : QueryResult → Bytes → Bytes → Outcome (Option Bytes)
value r var source = elim (lookup var r.vars) [
  | none ↦ done none
  | some i ↦ lift some (captured r i source)
]

-- Some new range does not start strictly behind every range of `r`.
unfoldable pub is_out_of_order : QueryResult → QueryResult → Bool
is_out_of_order r other =
    any other.captures λ c. any r.captures λ c2. leb c.range.start c2.range.end

-- The loop of `merge` over the variables of `other`; `vars` is the map under construction.
unfoldable pub merge_vars :
    QueryResult → QueryResult → Bytes → List (Bytes × ℕ) → Vars → Outcome (Option Vars)
merge_vars r other source [] vars = done (some vars)
merge_vars r other source ((k, v) ∷ rest) vars = do
  mine ← value r k source
  elim mine [
    | none ↦ merge_vars r other source rest (insert k (v + length r.captures) vars)
    | some s ↦ do
      found ← value other k source
      theirs ← unwrap found
      elim (s == theirs) [ true ↦ merge_vars r other source rest vars | false ↦ done none ]
  ]

unfoldable pub merge : QueryResult → QueryResult → Bytes → Bool → Outcome (Option QueryResult)
unfolding merge_vars is_out_of_order
merge r other source enforce_order =
    if enforce_order && is_out_of_order r other then done none else do
      merged ← merge_vars r other source other.vars r.vars
      elim merged [
        | none ↦ done none
        | some vars ↦ done (
            some (record {
              captures = r.captures ++ other.captures;
              vars = vars;
              function = r.function;
            }))
      ]

-- The closure of `any` in `chainable`: the two results differ at the variable.
unfoldable pub differs_at : QueryResult → Bytes → QueryResult → Bytes → Bytes → Outcome Bool
differs_at r source other other_source k = do
  mine ← value r k source
  elim mine [
    | none ↦ done false
    | some s ↦ do
      found ← value other k other_source
      theirs ← unwrap found
      done (not (s == theirs))
  ]

unfoldable pub any_differs :
    QueryResult → Bytes → QueryResult → Bytes → List (Bytes × ℕ) → Outcome Bool
any_differs r source other other_source [] = done false
any_differs r source other other_source ((k, v) ∷ rest) = do
  d ← differs_at r source other other_source k
  elim d [ true ↦ done true | false ↦ any_differs r source other other_source rest ]

-- Whether results of two files agree on their shared variables.
unfoldable pub chainable : QueryResult → Bytes → QueryResult → Bytes → Outcome Bool
unfolding any_differs differs_at
chainable r source other other_source =
    lift not (any_differs r source other other_source other.vars)

find_capture : ℕ → ℕ → List CaptureResult → Option CaptureResult
find_capture query_id capture_idx [] = none
find_capture query_id capture_idx (c ∷ cs) =
    if nat_beq c.capture_idx capture_idx && nat_beq c.query_id query_id
    then some c
    else find_capture query_id capture_idx cs

unfoldable pub get_capture_result : QueryResult → ℕ → ℕ → Option CaptureResult
unfolding find_capture
get_capture_result r query_id capture_idx = find_capture query_id capture_idx r.captures

-- `filter_map` over the merges of one result with each sub result.
unfoldable pub merge_each :
    QueryResult → List QueryResult → Bytes → Bool → Outcome (List QueryResult)
merge_each r [] source enforce_order = done []
merge_each r (s ∷ subs) source enforce_order = do
  m ← merge r s source enforce_order
  ms ← merge_each r subs source enforce_order
  done (elim m [ none ↦ ms | some q ↦ q ∷ ms ])

-- Every result merged with every sub result, in that order.
unfoldable pub merge_results :
    List QueryResult → List QueryResult → Bytes → Bool → Outcome (List QueryResult)
unfolding merge_each
merge_results [] subs source enforce_order = done []
merge_results (r ∷ rs) subs source enforce_order = do
  here ← merge_each r subs source enforce_order
  rest ← merge_results rs subs source enforce_order
  done (here ++ rest)
