-- ===== src/Pipeline.antt =====
-- src/pipeline.rs: which files are parsed, and which matches of a file are reported. The workers run
-- files in parallel and share nothing but the channel, so the model runs one file.
pub mod Limits
pub mod Selection
pub mod Sent
pub mod Reports
pub mod Tests
use weggli_enhance.Common.{
  ℕ, suc, ◌≡◌, refl, Bool, true, false, not, List, [], ◌∷◌, ◌++◌, arith, any, all, if◌then◌else◌,
  nat_beq, bytes_beq, Outcome, done, panic, ◌>>=◌, unwrap,
}
use weggli_enhance.Text.{Bytes, contains}
use weggli_enhance.Result.{QueryResult, Vars, value, start_offset}
use weggli_enhance.Query.Tree.{QueryTree}
use weggli_enhance.Query.Engine.{TreeSitter}
use weggli_enhance.Query.Match.{matches}
use weggli_enhance.Sarif.{ResultsCtx}

pub record WorkItem (Pattern Regex : Type 0) : Type 0 where
  pub qt : QueryTree Pattern Regex
  pub identifiers : List Bytes
  pub reason : Bytes
  pub issue : Bytes

pub record Options : Type 0 where
  pub unique : Bool
  pub limit : Bool

-- Whether some query may match the source: all of its identifiers occur.
unfoldable pub potential_match :
    {Pattern Regex : Type 0} → List (WorkItem Pattern Regex) → Bytes → Bool
potential_match work source = any work λ w. all w.identifiers λ i. contains source i

-- `all(|x| seen.insert(x))` over the values of the variables.
unfoldable pub all_new : QueryResult → Bytes → Vars → List Bytes → Outcome Bool
all_new m source [] seen = done true
all_new m source ((k, i) ∷ vars) seen = do
  found ← value m k source
  x ← unwrap found
  elim (any seen (λ y. bytes_beq y x)) [
    | true ↦ done false
    | false ↦ all_new m source vars (x ∷ seen)
  ]

unfoldable pub check_unique : Options → QueryResult → Bytes → Outcome Bool
unfolding all_new
check_unique options m source = if options.unique then all_new m source m.vars [] else done true

-- Both filters over the matches of one query; `skip` is the set of the offsets so far.
unfoldable pub select : Options → Bytes → List QueryResult → List ℕ → Outcome (List QueryResult)
select options source [] skip = done []
select options source (m ∷ ms) skip = do
  unique ← check_unique options m source
  elim unique [
    | false ↦ select options source ms skip
    | true ↦ elim options.limit [
      | false ↦ do rest ← select options source ms skip; done (m ∷ rest)
      | true ↦ elim (any skip (λ s. nat_beq s (start_offset m))) [
        | true ↦ select options source ms skip
        | false ↦ do rest ← select options source ms (start_offset m ∷ skip); done (m ∷ rest)
      ]
    ]
  ]

-- What `process_match` sends for the matches of a query.
unfoldable pub contexts : ℕ → Bytes → Bytes → Bytes → Bytes → List QueryResult → List ResultsCtx
contexts i path source reason issue [] = []
contexts i path source reason issue (m ∷ ms) =
    record {
      query_index = i;
      path = path;
      source = source;
      result = m;
      reason = reason;
      issue = issue;
    }
    ∷ contexts i path source reason issue ms

module _ (ts : TreeSitter) (options : Options) where
  -- The queries of `work`, the first of which has the index `i`, on one parsed file.
  unfoldable pub execute_queries :
      ℕ → List (WorkItem ts.Pattern ts.Regex) → Bytes → ts.Node → Bytes → Outcome (List ResultsCtx)
  unfolding select contexts
  execute_queries i [] source root path = done []
  execute_queries i (w ∷ work) source root path = do
    found ← matches ts source w.qt root
    reported ← select options source found []
    rest ← execute_queries (suc i) work source root path
    done (contexts i path source w.reason w.issue reported ++ rest)
