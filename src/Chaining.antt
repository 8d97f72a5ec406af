-- ===== src/Chaining.antt =====
-- `filter_chainable_results` of src/main.rs: of several queries, only results that agree with some
-- result of every other query are kept. The groups are a map from a query's index to the indices of
-- its results, iterated in its order.
pub mod Groups
pub mod Agreement
pub mod Marks
pub mod Survivors
pub mod Tests
use weggli_enhance.Common.{
  ℕ, zero, suc, ◌≤◌, ◌≡◌, refl, Bool, true, false, not, List, [], ◌∷◌, ◌++◌, Option, none, some,
  arith, leb, nat_beq, if◌then◌else◌, length, get_elem?, Outcome, done, panic, ◌>>=◌, unwrap,
}
use weggli_enhance.Result.{chainable}
use weggli_enhance.Sarif.{ResultsCtx}

abbrev pub Groups : Type 0
Groups = List (ℕ × List ℕ)

-- `groups.entry(q).or_default().push(idx)`
unfoldable pub push_index : ℕ → ℕ → Groups → Groups
push_index q idx [] = (q, idx ∷ []) ∷ []
push_index q idx ((p, is) ∷ gs) =
    let rest = push_index q idx gs in
    if nat_beq p q then (p, is ++ idx ∷ []) ∷ gs else (p, is) ∷ rest

unfoldable pub group_from : ℕ → List ResultsCtx → Groups → Groups
unfolding push_index
group_from idx [] groups = groups
group_from idx (r ∷ rs) groups = group_from (suc idx) rs (push_index r.query_index idx groups)

-- The closure of `any` over the indices of the other group.
unfoldable pub any_chainable : List ResultsCtx → ResultsCtx → List ℕ → Outcome Bool
any_chainable results a [] = done false
any_chainable results a (idx ∷ is) = do
  b ← unwrap (get_elem? results idx)
  found ← chainable a.result a.source b.result b.source
  elim found [ true ↦ done true | false ↦ any_chainable results a is ]

-- The loop over the other groups, which stops at the first without a chainable result.
unfoldable pub chains_with_all : List ResultsCtx → ℕ → ResultsCtx → Groups → Outcome Bool
chains_with_all results query_i a [] = done true
chains_with_all results query_i a ((query_j, is) ∷ gs) = elim (nat_beq query_i query_j) [
  | true ↦ chains_with_all results query_i a gs
  | false ↦ do
    has_chainable ← any_chainable results a is
    elim has_chainable [ true ↦ chains_with_all results query_i a gs | false ↦ done false ]
]

-- `keep[idx] = b`
unfoldable pub set_at : ℕ → Bool → List Bool → Outcome (List Bool)
set_at idx b [] = panic
set_at zero b (k ∷ ks) = done (b ∷ ks)
set_at (suc idx) b (k ∷ ks) = do rest ← set_at idx b ks; done (k ∷ rest)

unfoldable pub mark_group : List ResultsCtx → Groups → ℕ → List ℕ → List Bool → Outcome (List Bool)
mark_group results groups query_i [] keep = done keep
mark_group results groups query_i (idx ∷ is) keep = do
  a ← unwrap (get_elem? results idx)
  b ← chains_with_all results query_i a groups
  keep' ← set_at idx b keep
  mark_group results groups query_i is keep'

unfoldable pub mark_all : List ResultsCtx → Groups → Groups → List Bool → Outcome (List Bool)
unfolding mark_group chains_with_all any_chainable set_at
mark_all results groups [] keep = done keep
mark_all results groups ((query_i, is) ∷ gs) keep = do
  keep' ← mark_group results groups query_i is keep
  mark_all results groups gs keep'

unfoldable pub all_false : ℕ → List Bool
all_false zero = []
all_false (suc n) = false ∷ all_false n

-- The last loop; it panics where `keep` is too short.
unfoldable pub kept : List ResultsCtx → List Bool → Outcome (List ResultsCtx)
kept [] keep = done []
kept (r ∷ rs) [] = panic
kept (r ∷ rs) (k ∷ keep) = do rest ← kept rs keep; done (if k then r ∷ rest else rest)

unfoldable pub filter_chainable_results : List ResultsCtx → Outcome (List ResultsCtx)
unfolding group_from mark_all kept all_false
filter_chainable_results results =
    let groups = group_from 0 results [] in
    if leb (length groups) 1
    then done results
    else do keep ← mark_all results groups groups (all_false (length results)); kept results keep
