-- ===== src/Query/Matches.antt =====
-- `QueryTree::matches` of src/query.rs.
use weggli_enhance.Common.{
  ℕ, ◌≡◌, refl, Bool, true, false, List, [], ◌∷◌, All, All-lookup, insert-All, Outcome, done, panic,
  lift, lookup, insert, Distinct, nat_eq, Option-cases, ◌⊎◌, inl, inr,
}
use weggli_enhance.Text.{Bytes}
use weggli_enhance.Result.{QueryResult}
use weggli_enhance.Result.Bindings.{IsWellFormed}
use weggli_enhance.Result.Equality.{dedup, dedup_behind, result_beq}
use weggli_enhance.Query.Tree.{QueryTree}
use weggli_enhance.Query.Engine.{TreeSitter, Action}
use weggli_enhance.Query.Match.{Cache, pair_eq, cached, match_internal, matches}
use weggli_enhance.Query.Agreement.{uncached}
use weggli_enhance.Query.Memo.{sub_queries, match_internal-uncached}
use weggli_enhance.Query.Regexes.{RegexFails, regexes-Covers}
use weggli_enhance.Query.Progress.{IsSane}
use weggli_enhance.Query.Ensures.{Ensures, Returns}
use weggli_enhance.Query.Compiled.{IsCompiled}
use weggli_enhance.Query.Total.{match_internal-Ensures}

module _ (P : QueryResult → Type 0) where
  dedup_behind-All :
      (last : QueryResult) (rs : List QueryResult) → All P rs → All P (dedup_behind last rs)
  unfolding dedup_behind
  dedup_behind-All last [] h = tt
  dedup_behind-All last (r ∷ rs) h =
      go (result_beq r last) (dedup_behind-All last rs h.1) (dedup_behind-All r rs h.1)
    where
      go :
          (b : Bool)
          → All P (dedup_behind last rs)
          → All P (dedup_behind r rs)
          → All P (elim b [ true ↦ dedup_behind last rs | false ↦ r ∷ dedup_behind r rs ])
      go true a b = a
      go false a b = (h.0, b)

  dedup-All : (rs : List QueryResult) → All P rs → All P (dedup rs)
  unfolding dedup
  dedup-All [] h = tt
  dedup-All (r ∷ rs) h = (h.0, dedup_behind-All r rs h.1)

-- A cache whose results fit the source.
abbrev CacheFits : Bytes → Cache → Type 0
CacheFits source = All λ (e : (ℕ × ℕ) × List QueryResult). All (IsWellFormed source) e.1

module _ (Fail : Type 0) (source : Bytes) where
  store-Returns :
      (q n : ℕ) (o : Outcome (List QueryResult × Cache))
      → Returns Fail (CacheFits source) (All (IsWellFormed source)) o
      → Returns Fail
          (CacheFits source)
          (All (IsWellFormed source))
          (elim o [ panic ↦ panic | done (v, cache') ↦ done (v, insert (q, n) v cache') ])
  store-Returns q n (done (v, cache)) h =
      (h.0, insert-All (All (IsWellFormed source)) (q, n) v cache h.0 h.1)
  store-Returns q n panic h = h

  cached-Ensures :
      (q n : ℕ) (m : Action Cache (List QueryResult))
      → Ensures Fail (CacheFits source) (All (IsWellFormed source)) m
      → Ensures Fail (CacheFits source) (All (IsWellFormed source)) (cached q n m)
  unfolding cached
  cached-Ensures q n m h = record {
    at_state = λ cache fit. elim (Option-cases (lookup (q, n) cache)) [
      | inl miss ↦ rw (miss, cached) (store-Returns q n (m cache) (h.at_state cache fit))
      | inr (v, hit) ↦
          rw (hit, cached) (All-lookup (All (IsWellFormed source)) cache (q, n) fit hit, fit)
    ];
  }

-- On a sane syntax tree, for a query tree whose queries were compiled with its captures, `matches`
-- either returns results that all fit the source, or it panics and a regular expression of the query
-- tree gives an error on the text of a node. Where a result fits the source, its variables name
-- captures, none twice, and its captures are slices of the source.
pub matches-IsWellFormed :
    (ts : TreeSitter) (source : Bytes) (t : QueryTree ts.Pattern ts.Regex) (root : ts.Node)
    → IsSane ts source
    → IsCompiled ts source t
    → ((results : List QueryResult) × (matches ts source t root ≡ done results)
        × All (IsWellFormed source) results)
      ⊎ ((matches ts source t root ≡ panic) × RegexFails ts source t)
unfolding matches
matches-IsWellFormed ts source t root sane compiled =
    finish (match_internal ts source Cache cached t root []) (
      (match_internal-Ensures ts source sane Fail Cache (CacheFits source) cached
          (cached-Ensures Fail source) t compiled (regexes-Covers ts source t) root).at_state
        [] tt)
  where
    Fail : Type 0
    Fail = RegexFails ts source t

    finish :
        (o : Outcome (List QueryResult × Cache))
        → Returns Fail (CacheFits source) (All (IsWellFormed source)) o
        → ((results : List QueryResult) × ((elim o [
          | panic ↦ panic
          | done (rs, cache) ↦ done (dedup rs)
        ])
              ≡ done results)
            × All (IsWellFormed source) results)
          ⊎ (((elim o as (λ z. Outcome (List QueryResult)) [
            | panic ↦ panic
            | done (rs, cache) ↦ done (dedup rs)
          ])
                ≡ panic)
              × Fail)
    finish (done (rs, cache)) h = inl (dedup rs, refl, dedup-All (IsWellFormed source) rs h.0)
    finish panic h = inr (refl, h)

-- The cache does not change what `matches` returns: where no two sub queries of the tree share an
-- id and nodes are told apart by theirs, the results are those of running every sub query anew.
pub matches-uncached :
    (ts : TreeSitter) (source : Bytes) (t : QueryTree ts.Pattern ts.Regex) (root : ts.Node)
    → ((m n : ts.Node) → ts.node_id m ≡ ts.node_id n → m ≡ n)
    → Distinct (sub_queries ts source t)
    → matches ts source t root ≡ lift dedup (uncached ts source t root)
unfolding matches
matches-uncached ts source t root injective distinct =
    rw (← match_internal-uncached ts source injective t root distinct)
      (same (match_internal ts source Cache cached t root []))
  where
    same :
        (o : Outcome (List QueryResult × Cache))
        → (elim o [ panic ↦ panic | done (rs, cache) ↦ done (dedup rs) ])
          ≡ lift dedup (lift (λ p. p.0) o)
    same (done (rs, cache)) = refl
    same panic = refl
