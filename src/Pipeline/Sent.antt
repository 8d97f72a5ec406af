-- ===== src/Pipeline/Sent.antt =====
-- The results that `execute_queries_worker` of src/pipeline.rs sends under the index of a query.
use weggli_enhance.Common.{
  ℕ, ◌≡◌, ◌≢◌, refl, List, [], ◌∷◌, ◌++◌, arith, All, nat_beq, if◌then◌else◌,
}
use weggli_enhance.Text.{Bytes}
use weggli_enhance.Result.{QueryResult}
use weggli_enhance.Sarif.{ResultsCtx}
use weggli_enhance.Pipeline.{contexts}

-- The results that were sent for one query, in their order.
unfoldable pub sent_for : ℕ → List ResultsCtx → List QueryResult
sent_for i [] = []
sent_for i (r ∷ rs) =
    let rest = sent_for i rs in if nat_beq r.query_index i then r.result ∷ rest else rest

pub sent_for-append :
    (i : ℕ) (rs ss : List ResultsCtx) → sent_for i (rs ++ ss) ≡ sent_for i rs ++ sent_for i ss
unfolding sent_for
sent_for-append i [] ss = refl
sent_for-append i (r ∷ rs) ss = ground (arith, sent_for-append i rs ss)

pub sent_for-other :
    (i : ℕ) (rs : List ResultsCtx)
    → All (λ (r : ResultsCtx). r.query_index ≢ i) rs
    → sent_for i rs ≡ []
unfolding sent_for
sent_for-other i [] h = refl
sent_for-other i (r ∷ rs) h = ground (arith, h.0, sent_for-other i rs h.1)

pub sent_for-contexts :
    (i : ℕ) (path source reason issue : Bytes) (ms : List QueryResult)
    → sent_for i (contexts i path source reason issue ms) ≡ ms
unfolding sent_for contexts
sent_for-contexts i path source reason issue [] = refl
sent_for-contexts i path source reason issue (m ∷ ms) =
    let rest = sent_for-contexts i path source reason issue ms in ground (arith, rest)

pub contexts-index :
    (i : ℕ) (path source reason issue : Bytes) (ms : List QueryResult) (k : ℕ)
    → i ≢ k
    → All (λ (r : ResultsCtx). r.query_index ≢ k) (contexts i path source reason issue ms)
unfolding contexts
contexts-index i path source reason issue [] k h = tt
contexts-index i path source reason issue (m ∷ ms) k h =
    (h, contexts-index i path source reason issue ms k h)
