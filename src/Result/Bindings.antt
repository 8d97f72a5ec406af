-- ===== src/Result/Bindings.antt =====
-- The variable assignment that a `QueryResult` of src/result.rs stands for, and the invariant under
-- which its look-ups do not panic.
use weggli_enhance.Common.{
  ℕ, ◌<◌, ◌≡◌, true, Option, none, some, length, get_elem?-lt, All, All-get_elem?, All-lookup, done,
  panic, lookup, Distinct, bytes_eq, Option-cases, inl, inr,
}
use weggli_enhance.Text.{Bytes, slice-done, is_sliceable}
use weggli_enhance.Result.{QueryResult, CaptureResult, captured, value}

-- Every variable names a capture, no variable twice, and every capture is a slice of the source.
pub record IsWellFormed (source : Bytes) (r : QueryResult) : Type 0 where
  pub in_range : All (λ (e : Bytes × ℕ). e.1 < length r.captures) r.vars
  pub distinct : Distinct r.vars
  pub sliceable : All (λ (c : CaptureResult). is_sliceable source c.range ≡ true) r.captures

-- The text that a result gives to each variable, where it gives one.
unfoldable pub assignment : QueryResult → Bytes → Bytes → Option Bytes
assignment r source k = elim (value r k source) [ done o ↦ o | panic ↦ none ]

pub captured-done :
    (source : Bytes) (r : QueryResult) (i : ℕ)
    → All (λ (c : CaptureResult). is_sliceable source c.range ≡ true) r.captures
    → i < length r.captures
    → (s : Bytes) × (captured r i source ≡ done s)
unfolding captured
captured-done source r i h lt =
    let (c, e) = get_elem?-lt r.captures i lt in
    rw e (slice-done source c.range (All-get_elem? _ r.captures i h e))

-- A variable with an entry has a text.
pub value-bound :
    (source : Bytes) (r : QueryResult) (k : Bytes) {i : ℕ}
    → IsWellFormed source r
    → lookup k r.vars ≡ some i
    → (s : Bytes) × (value r k source ≡ done (some s))
unfolding value
value-bound source r k {i} wf e =
    let (s, es) =
      captured-done source r i wf.sliceable
        (All-lookup (λ n. n < length r.captures) r.vars k wf.in_range e) in
    (s, rw (e, value) (rw es))

pub value-unbound :
    (source : Bytes) (r : QueryResult) (k : Bytes)
    → lookup k r.vars ≡ none
    → value r k source ≡ done none
unfolding value
value-unbound source r k e = rw (e, value)

-- Under the invariant a look-up never panics, and returns the assignment.
pub value-assignment :
    (source : Bytes) (r : QueryResult) (k : Bytes)
    → IsWellFormed source r
    → value r k source ≡ done (assignment r source k)
unfolding assignment
value-assignment source r k wf = elim (Option-cases (lookup k r.vars)) [
  | inl absent ↦ rw (value-unbound source r k absent, assignment)
  | inr (i, e) ↦ let (s, es) = value-bound source r k wf e in rw (es, assignment)
]

-- The invariant fixes which variables have a text.
pub assignment-unbound :
    (source : Bytes) (r : QueryResult) (k : Bytes)
    → lookup k r.vars ≡ none
    → assignment r source k ≡ none
unfolding assignment
assignment-unbound source r k e = rw (value-unbound source r k e, assignment)

pub assignment-bound :
    (source : Bytes) (r : QueryResult) (k : Bytes) {i : ℕ}
    → IsWellFormed source r
    → lookup k r.vars ≡ some i
    → (s : Bytes) × (assignment r source k ≡ some s) × (value r k source ≡ done (some s))
unfolding assignment
assignment-bound source r k wf e =
    let (s, es) = value-bound source r k wf e in (s, rw (es, assignment), es)
