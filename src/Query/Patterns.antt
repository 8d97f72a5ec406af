-- ===== src/Query/Patterns.antt =====
-- The loops of `match_internal` in src/query.rs over lists of results.
use weggli_enhance.Common.{
  ℕ, zero, suc, ◌<◌, ◌≡◌, refl, ap, Bool, true, false, List, [], ◌∷◌, ◌++◌, Option, none, some,
  arith, if◌then◌else◌, All, All-append, length, bytes_eq, done,
}
use weggli_enhance.Common.Int.{ℤ}
use weggli_enhance.Text.{Bytes}
use weggli_enhance.Result.{QueryResult, merge_results}
use weggli_enhance.Result.Bindings.{IsWellFormed}
use weggli_enhance.Result.Products.{merge_results-IsProduct}
use weggli_enhance.Query.Match.{
  pair_eq, extend_at, empty_results, merge_patterns, any_valid, is_between,
}
use weggli_enhance.Result.{merge}
use weggli_enhance.Result.Merge.{merge_lem}

-- Lists of lists of results, one for each pattern.
abbrev pub AllFit : Bytes → List (List QueryResult) → Type 0
AllFit source = All (All (IsWellFormed source))

pub extend_at-AllFit :
    (source : Bytes) (i : ℕ) (rs : List QueryResult) (prs : List (List QueryResult))
    → i < length prs
    → All (IsWellFormed source) rs
    → AllFit source prs
    → (prs' : List (List QueryResult)) × (extend_at i rs prs ≡ done prs')
      × AllFit source prs'
      × (length prs' ≡ length prs)
unfolding extend_at
extend_at-AllFit source i rs [] lt h all = absurd (omega arith)
extend_at-AllFit source zero rs (pr ∷ prs) lt h all =
    ((pr ++ rs) ∷ prs, refl, (All-append _ pr rs all.0 h, all.1), refl)
extend_at-AllFit source (suc i) rs (pr ∷ prs) lt h all =
    let (prs', e, fit, same) = extend_at-AllFit source i rs prs (omega arith) h all.1 in
    (pr ∷ prs', rw e, (all.0, fit), ap suc same)

pub empty_results-AllFit :
    (source : Bytes) (n : ℕ) → AllFit source (empty_results n) × (length (empty_results n) ≡ n)
unfolding empty_results
empty_results-AllFit source zero = (tt, refl)
empty_results-AllFit source (suc n) =
    let (fit, same) = empty_results-AllFit source n in ((tt, fit), ap suc same)

pub merge_patterns-Fits :
    (source : Bytes) (prs : List (List QueryResult)) (merged : List QueryResult)
    → AllFit source prs
    → All (IsWellFormed source) merged
    → (ms : List QueryResult) × (merge_patterns source prs merged ≡ done ms)
      × All (IsWellFormed source) ms
unfolding merge_patterns
merge_patterns-Fits source [] merged all h = (merged, refl, h)
merge_patterns-Fits source (pr ∷ prs) [] all h = merge_patterns-Fits source prs pr all.1 all.0
merge_patterns-Fits source (pr ∷ prs) (m ∷ ms) all h =
    let (product, e, fits) = merge_results-IsProduct source true (m ∷ ms) pr h all.0 in
    go product (λ ns. merge_patterns-Fits source prs ns all.1) e fits.well_formed
  where
    go :
        (product : List QueryResult)
        → ((ns : List QueryResult)
            → All (IsWellFormed source) ns
            → (ms' : List QueryResult) × (merge_patterns source prs ns ≡ done ms')
              × All (IsWellFormed source) ms')
        → merge_results (m ∷ ms) pr source true ≡ done product
        → All (IsWellFormed source) product
        → (ms' : List QueryResult) × (merge_patterns source (pr ∷ prs) (m ∷ ms) ≡ done ms')
          × All (IsWellFormed source) ms'
    go [] rec e fits = ([], rw (e, merge_patterns), tt)
    go (n ∷ ns) rec e fits =
        let (ms', e', fits') = rec (n ∷ ns) fits in (ms', rw (e, merge_patterns) e', fits')

pub any_valid-done :
    (source : Bytes) (id : ℕ) (result : QueryResult) (index : ℤ) (ns : List QueryResult)
    → IsWellFormed source result
    → All (IsWellFormed source) ns
    → (b : Bool) × (any_valid source id result index ns ≡ done b)
unfolding any_valid
any_valid-done source id result index [] h fit = (false, refl)
any_valid-done source id result index (n ∷ ns) h fit =
    let (b, e) = any_valid-done source id result index ns h fit.1 in
    go b e _ (merge_lem source n result fit.0 h false)
  where
    go :
        (b : Bool)
        → any_valid source id result index ns ≡ done b
        → (o : Option QueryResult) → merge n result source false ≡ done o
        → (c : Bool) × (any_valid source id result index (n ∷ ns) ≡ done c)
    go b e none refused = (b, rw (refused, any_valid) e)
    go b e (some m) made =
        (if is_between id result index n then true else b, ground (arith, made, e))
