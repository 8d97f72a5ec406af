-- ===== src/Pipeline/Reports.antt =====
-- `execute_queries_worker` of src/pipeline.rs: what is sent for a file.
use weggli_enhance.Common.{
  ℕ, zero, suc, ◌+◌, ◌<◌, ◌≡◌, ◌≢◌, refl, sym, ◌∙◌, ap, subst, List, [], ◌∷◌, ◌++◌, arith, All,
  All-append, All-mono, Member, done, panic, get_elem?, some, ◌⊎◌, inl, inr, some-injective,
  append-nil,
}
use weggli_enhance.Text.{Bytes}
use weggli_enhance.Result.{QueryResult}
use weggli_enhance.Result.Bindings.{IsWellFormed}
use weggli_enhance.Query.Engine.{TreeSitter}
use weggli_enhance.Query.Match.{matches}
use weggli_enhance.Query.Regexes.{RegexFails}
use weggli_enhance.Query.Progress.{IsSane}
use weggli_enhance.Query.Compiled.{IsCompiled}
use weggli_enhance.Query.Matches.{matches-IsWellFormed}
use weggli_enhance.Sarif.{ResultsCtx}
use weggli_enhance.Pipeline.{WorkItem, Options, select, contexts, execute_queries}
use weggli_enhance.Pipeline.Selection.{IsSelection, select-IsSelection}
use weggli_enhance.Pipeline.Sent.{
  sent_for, sent_for-append, sent_for-other, sent_for-contexts, contexts-index,
}

module _ (ts : TreeSitter) (options : Options) (source path : Bytes) (root : ts.Node) where
  abbrev Work : Type 0
  Work = List (WorkItem ts.Pattern ts.Regex)

  -- The result is of the file, and it is labelled with a query of `work`, the first of which has the
  -- index `i`: with its index, its reason and its issue.
  pub record IsReport (i : ℕ) (work : Work) (r : ResultsCtx) : Type 0 where
    pub of_source : r.source ≡ source
    pub of_path : r.path ≡ path
    pub of_query :
        (k : ℕ) × (w : WorkItem ts.Pattern ts.Regex) × (get_elem? work k ≡ some w)
        × (r.query_index ≡ i + k)
        × (r.reason ≡ w.reason)
        × (r.issue ≡ w.issue)

  -- The filters leave `rs` of the matches `ms`.
  abbrev pub Selects : List QueryResult → List QueryResult → Type 0
  Selects ms rs = (select options source ms [] ≡ done rs) × IsSelection options source [] ms rs

  -- What is sent for every query is what the filters leave of its matches, which fit the source.
  abbrev pub SendsSelections : ℕ → Work → List ResultsCtx → Type 0
  SendsSelections i work rs =
      (k : ℕ) (w : WorkItem ts.Pattern ts.Regex)
      → get_elem? work k ≡ some w
      → (found : List QueryResult) × (matches ts source w.qt root ≡ done found)
        × All (IsWellFormed source) found
        × Selects found (sent_for (i + k) rs)

  -- Some query panics on an error of one of its regular expressions.
  abbrev pub SomeFails : Work → Type 0
  SomeFails work =
      (w : WorkItem ts.Pattern ts.Regex) × Member w work
      × (matches ts source w.qt root ≡ panic)
      × RegexFails ts source w.qt

  contexts-IsReport :
      (i : ℕ) (w : WorkItem ts.Pattern ts.Regex) (work : Work) (ms : List QueryResult)
      → All (IsReport i (w ∷ work)) (contexts i path source w.reason w.issue ms)
  unfolding contexts
  contexts-IsReport i w work [] = tt
  contexts-IsReport i w work (m ∷ ms) = (
    record { of_source = refl; of_path = refl; of_query = (0, w, refl, omega arith, refl, refl) },
    contexts-IsReport i w work ms,
  )

  IsReport-later :
      (i : ℕ) (w : WorkItem ts.Pattern ts.Regex) (work : Work) (r : ResultsCtx)
      → IsReport (suc i) work r
      → IsReport i (w ∷ work) r
  IsReport-later i w work r h =
      let (k, v, e, place, reason, issue) = h.of_query in
      record {
        of_source = h.of_source;
        of_path = h.of_path;
        of_query = (suc k, v, e, omega (arith, place), reason, issue);
      }

  IsReport-index :
      (i : ℕ) (work : Work) (k : ℕ) (r : ResultsCtx) → k < i → IsReport i work r → r.query_index ≢ k
  IsReport-index i work k r lt h same =
      let (j, v, e, place, reason, issue) = h.of_query in absurd (omega (arith, place, lt, same))

  SendsSelections-push :
      (i : ℕ) (w : WorkItem ts.Pattern ts.Regex) (work : Work) {found : List QueryResult}
      (reported : List QueryResult) (rest : List ResultsCtx)
      → matches ts source w.qt root ≡ done found
      → All (IsWellFormed source) found
      → Selects found reported
      → All (IsReport (suc i) work) rest
      → SendsSelections (suc i) work rest
      → SendsSelections i (w ∷ work) (contexts i path source w.reason w.issue reported ++ rest)
  SendsSelections-push i w work {found} reported rest e wf sel reports h zero v at_k =
      subst
        (λ (u : WorkItem ts.Pattern ts.Regex).
          (ms : List QueryResult) × (matches ts source u.qt root ≡ done ms)
          × All (IsWellFormed source) ms
          × Selects ms
              (sent_for (i + 0) (contexts i path source w.reason w.issue reported ++ rest)))
        (some-injective w v at_k)
        (
          found,
          e,
          wf,
          subst (Selects found) (sym (own_part i w.reason w.issue reported rest reports)) sel,
        )
    where
      own_part :
          (j : ℕ) (reason issue : Bytes) (reported : List QueryResult) (rest : List ResultsCtx)
          → All (IsReport (suc j) work) rest
          → sent_for (j + 0) (contexts j path source reason issue reported ++ rest) ≡ reported
      own_part j reason issue reported rest reports =
          let other : sent_for j rest ≡ [] =
            sent_for-other j rest (
              All-mono _ _ rest (λ r k. IsReport-index (suc j) work j r (omega arith) k) reports) in
          let first : j + 0 ≡ j = omega arith in
          ap (λ n. sent_for n (contexts j path source reason issue reported ++ rest)) first
          ∙ sent_for-append j (contexts j path source reason issue reported) rest
          ∙ (ap (λ ms. ms ++ sent_for j rest)
                (sent_for-contexts j path source reason issue reported)
              ∙ (ap (λ ms. reported ++ ms) other ∙ append-nil reported))
  SendsSelections-push i w work {found} reported rest e wf sel reports h (suc k) v at_k =
      let (ms, em, fit, selection) = h k v at_k in
      (ms, em, fit, subst (Selects ms) (sym later) selection)
    where
      later :
          sent_for (i + suc k) (contexts i path source w.reason w.issue reported ++ rest)
          ≡ sent_for (suc i + k) rest
      later =
          let moved : i + suc k ≡ suc i + k = omega arith in
          sent_for-append (i + suc k) (contexts i path source w.reason w.issue reported) rest
          ∙ ap (λ ms. ms ++ sent_for (i + suc k) rest)
              (sent_for-other (i + suc k) (contexts i path source w.reason w.issue reported)
                (contexts-index i path source w.reason w.issue reported (i + suc k) (omega arith)))
          ∙ ap (λ n. sent_for n rest) moved

  execute_queries-done :
      (i : ℕ) (w : WorkItem ts.Pattern ts.Regex) (work : Work) {found reported : List QueryResult}
      {rest : List ResultsCtx}
      → matches ts source w.qt root ≡ done found
      → select options source found [] ≡ done reported
      → execute_queries ts options (suc i) work source root path ≡ done rest
      → execute_queries ts options i (w ∷ work) source root path
        ≡ done (contexts i path source w.reason w.issue reported ++ rest)
  unfolding execute_queries
  execute_queries-done i w work e f g =
      rw (e, execute_queries) (rw (f, execute_queries) (rw g refl))

  execute_queries-panic :
      (i : ℕ) (w : WorkItem ts.Pattern ts.Regex) (work : Work) {found reported : List QueryResult}
      → matches ts source w.qt root ≡ done found
      → select options source found [] ≡ done reported
      → execute_queries ts options (suc i) work source root path ≡ panic
      → execute_queries ts options i (w ∷ work) source root path ≡ panic
  unfolding execute_queries
  execute_queries-panic i w work e f g =
      rw (e, execute_queries) (rw (f, execute_queries) (rw g refl))

  execute_queries-first_panic :
      (i : ℕ) (w : WorkItem ts.Pattern ts.Regex) (work : Work)
      → matches ts source w.qt root ≡ panic
      → execute_queries ts options i (w ∷ work) source root path ≡ panic
  unfolding execute_queries
  execute_queries-first_panic i w work e = rw (e, execute_queries) refl

  execute_queries-from :
      (sane : IsSane ts source) (i : ℕ) (work : Work)
      → All (λ (w : WorkItem ts.Pattern ts.Regex). IsCompiled ts source w.qt) work
      → ((rs : List ResultsCtx) × (execute_queries ts options i work source root path ≡ done rs)
          × All (IsReport i work) rs
          × SendsSelections i work rs)
        ⊎ ((execute_queries ts options i work source root path ≡ panic) × SomeFails work)
  unfolding execute_queries
  execute_queries-from sane i [] compiled = inl ([], refl, tt, λ k w at_k. cc)
  execute_queries-from sane i (w ∷ work) compiled =
      elim (matches-IsWellFormed ts source w.qt root sane compiled.0) [
        | inr (ef, fails) ↦ inr (execute_queries-first_panic i w work ef, (w, inl refl, ef, fails))
        | inl (found, ef, wf) ↦
            let (reported, er, sel) = select-IsSelection options source found wf in
            elim (execute_queries-from sane (suc i) work compiled.1) [
              | inr (et, (v, later, ev, fails)) ↦
                  inr (execute_queries-panic i w work ef er et, (v, inr later, ev, fails))
              | inl (rest, et, reports, sends) ↦ inl (
                contexts i path source w.reason w.issue reported ++ rest,
                execute_queries-done i w work ef er et,
                All-append _ (contexts i path source w.reason w.issue reported) rest
                    (contexts-IsReport i w work reported)
                    (All-mono _ _ rest (IsReport-later i w work) reports),
                SendsSelections-push i w work reported rest ef wf (er, sel) reports sends,
              )
            ]
      ]

-- On a sane syntax tree, for queries that were compiled with their captures, one of two things
-- happens. Either results are sent: each is of the file and carries the index, the reason and the
-- issue of one of the queries, and those sent under the index of a query are what `--unique` and
-- `--limit` leave of that query's matches, which fit the source. Or the run panics, and some query's
-- matching panics with an error of one of its regular expressions on the text of a node.
pub execute_queries-IsReport :
    (ts : TreeSitter) (options : Options) (work : List (WorkItem ts.Pattern ts.Regex))
    (source path : Bytes) (root : ts.Node)
    → IsSane ts source
    → All (λ (w : WorkItem ts.Pattern ts.Regex). IsCompiled ts source w.qt) work
    → ((rs : List ResultsCtx) × (execute_queries ts options 0 work source root path ≡ done rs)
        × All (IsReport ts options source path root 0 work) rs
        × SendsSelections ts options source path root 0 work rs)
      ⊎ ((execute_queries ts options 0 work source root path ≡ panic)
          × SomeFails ts options source path root work)
execute_queries-IsReport ts options work source path root sane compiled =
    execute_queries-from ts options source path root sane 0 work compiled
