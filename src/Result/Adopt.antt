-- ===== src/Result/Adopt.antt =====
-- The loop of `QueryResult::merge` in src/result.rs: the map that it builds, and when it gives up.
use weggli_enhance.Common.{
  ℕ, ◌+◌, ◌<◌, ◌≡◌, refl, Bool, true, List, [], ◌∷◌, ◌++◌, Option, none, some, arith, length,
  get_elem?-append_left, get_elem?-append_right, length-append, all, All, All-append, All-lookup,
  All-mono, done, lookup, insert, Distinct, ◌==◌, lookup-insert, insert-Distinct, insert-All,
  all-lookup, bytes_eq, bytes_beq_iff, Option-cases, inl, inr, if◌then◌else◌,
}
use weggli_enhance.Text.{Bytes}
use weggli_enhance.Result.{QueryResult, Vars, captured, value, merge_vars}
use weggli_enhance.Result.Bindings.{
  IsWellFormed, assignment, value-unbound, assignment-unbound, assignment-bound,
}

-- Two assignments give no variable two texts.
abbrev pub Compatible : (Bytes → Option Bytes) → (Bytes → Option Bytes) → Type 0
Compatible a b = (k s t : Bytes) → a k ≡ some s → b k ≡ some t → s ≡ t

abbrev pub agrees : Option Bytes → Option Bytes → Bool
agrees (some s) (some t) = s == t
agrees _ _ = true

abbrev pub or_else {ℓ} : {A : Type ℓ} → Option A → Option A → Option A
or_else none o = o
or_else (some a) o = some a

-- The entries of `rest` that `r` does not bind, moved behind its captures.
pub adopt : QueryResult → List (Bytes × ℕ) → Vars → Vars
adopt r [] vars = vars
adopt r ((k, v) ∷ rest) vars =
    adopt r rest
      (elim (lookup k r.vars) [ none ↦ insert k (v + length r.captures) vars | some i ↦ vars ])

-- The test that the loop makes at every entry.
unfoldable pub all_agree : (Bytes → Option Bytes) → (Bytes → Option Bytes) → List (Bytes × ℕ) → Bool
all_agree a b rest = all rest λ e. agrees (a e.0) (b e.0)

module _ (source : Bytes) (r other : QueryResult) where
  -- The loop of `merge` in one equation: it adopts the entries, or finds a difference.
  pub merge_vars-adopt :
      (rest : List (Bytes × ℕ)) (vars : Vars)
      → IsWellFormed source r
      → IsWellFormed source other
      → All (λ (e : Bytes × ℕ). lookup e.0 other.vars ≡ some e.1) rest
      → merge_vars r other source rest vars
        ≡ done (
            if all_agree (assignment r source) (assignment other source) rest
            then some (adopt r rest vars)
            else none)
  unfolding merge_vars adopt all_agree
  merge_vars-adopt [] vars wr wo h = refl
  merge_vars-adopt ((k, v) ∷ rest) vars wr wo h = elim (Option-cases (lookup k r.vars)) [
    | inl absent ↦
        rw (value-unbound source r k absent, assignment-unbound source r k absent, absent)
          (merge_vars-adopt rest _ wr wo h.1)
    | inr (i, e) ↦
        let (s, hs, es) = assignment-bound source r k wr e in
        let (t, ht, et) = assignment-bound source other k wo h.0 in
        ground (arith, hs, ht, es, et, e, merge_vars-adopt rest vars wr wo h.1)
  ]

lookup-adopt :
    (r : QueryResult) (rest : List (Bytes × ℕ)) (vars : Vars) (k : Bytes)
    → Distinct rest
    → lookup k (adopt r rest vars) ≡ elim (lookup k r.vars) [
      | some i ↦ lookup k vars
      | none ↦ elim (lookup k rest) [ none ↦ lookup k vars | some v ↦ some (v + length r.captures) ]
    ]
unfolding adopt
lookup-adopt r [] vars k d = ground arith
lookup-adopt r ((j, v) ∷ rest) vars k d = ground (
  arith,
  lookup-adopt r rest vars k d.1,
  lookup-adopt r rest (insert j (v + length r.captures) vars) k d.1,
  lookup-insert j k (v + length r.captures) vars,
  bytes_beq_iff j k,
)

module _ (source : Bytes) (r other : QueryResult) where
  abbrev pub merged : QueryResult
  merged = record {
    captures = r.captures ++ other.captures;
    vars = adopt r other.vars r.vars;
    function = r.function;
  }

  captured-left : (i : ℕ) → i < length r.captures → captured merged i source ≡ captured r i source
  unfolding captured
  captured-left i h = rw (get_elem?-append_left r.captures other.captures i h)

  captured-right :
      (i : ℕ) → captured merged (i + length r.captures) source ≡ captured other i source
  unfolding captured
  captured-right i =
      let e : i + length r.captures ≡ length r.captures + i = omega arith in
      rw (e, get_elem?-append_right r.captures other.captures i)

  pub value-merged :
      (k : Bytes)
      → IsWellFormed source r
      → IsWellFormed source other
      → value merged k source
        ≡ elim (lookup k r.vars) [ some i ↦ value r k source | none ↦ value other k source ]
  unfolding value
  value-merged k wr wo = elim (Option-cases (lookup k r.vars)) [
    | inl absent ↦ elim (Option-cases (lookup k other.vars)) [
      | inl unbound ↦ ground (arith, lookup-adopt r other.vars r.vars k wo.distinct)
      | inr (v, bound) ↦
          ground (arith, lookup-adopt r other.vars r.vars k wo.distinct, captured-right v)
    ]
    | inr (i, bound) ↦
        let lt = All-lookup (λ n. n < length r.captures) r.vars k wr.in_range bound in
        ground (arith, lookup-adopt r other.vars r.vars k wo.distinct, captured-left i lt)
  ]

adopt-Distinct :
    (r : QueryResult) (rest : List (Bytes × ℕ)) (vars : Vars)
    → Distinct vars
    → Distinct (adopt r rest vars)
unfolding adopt
adopt-Distinct r [] vars d = d
adopt-Distinct r ((k, v) ∷ rest) vars d = elim (Option-cases (lookup k r.vars)) [
  | inl absent ↦ rw absent (adopt-Distinct r rest _ (insert-Distinct k _ vars d))
  | inr (i, e) ↦ rw e (adopt-Distinct r rest vars d)
]

adopt-All :
    (P : ℕ → Type 0) (r : QueryResult) (rest : List (Bytes × ℕ)) (vars : Vars)
    → All (λ (e : Bytes × ℕ). P (e.1 + length r.captures)) rest
    → All (λ (e : Bytes × ℕ). P e.1) vars
    → All (λ (e : Bytes × ℕ). P e.1) (adopt r rest vars)
unfolding adopt
adopt-All P r [] vars hr h = h
adopt-All P r ((k, v) ∷ rest) vars hr h = elim (Option-cases (lookup k r.vars)) [
  | inl absent ↦ rw absent (adopt-All P r rest _ hr.1 (insert-All P k _ vars hr.0 h))
  | inr (i, e) ↦ rw e (adopt-All P r rest vars hr.1 h)
]

module _ (source : Bytes) (r other : QueryResult) where
  pub merged-IsWellFormed :
      IsWellFormed source r
      → IsWellFormed source other
      → IsWellFormed source (merged source r other)
  merged-IsWellFormed wr wo =
      let n = length r.captures in
      let total = length-append r.captures other.captures in
      let P : ℕ → Type 0 = λ i. i < length (r.captures ++ other.captures) in
      record {
        in_range =
            adopt-All P r other.vars r.vars
              (All-mono _ _ other.vars (λ e lt. omega arith) wo.in_range)
              (All-mono _ _ r.vars (λ e lt. omega arith) wr.in_range);
        distinct = adopt-Distinct r other.vars r.vars wr.distinct;
        sliceable = All-append _ r.captures other.captures wr.sliceable wo.sliceable;
      }

agrees-Compatible :
    (x y : Option Bytes) → ((s t : Bytes) → x ≡ some s → y ≡ some t → s ≡ t) → agrees x y ≡ true
agrees-Compatible (some s) (some t) h = (bytes_beq_iff s t).1 (h s t refl refl)
agrees-Compatible none y h = refl
agrees-Compatible (some s) none h = refl

module _ (a b : Bytes → Option Bytes) where
  pub all_agree_of_Compatible :
      (rest : List (Bytes × ℕ)) → Compatible a b → all_agree a b rest ≡ true
  unfolding all_agree
  all_agree_of_Compatible [] h = refl
  all_agree_of_Compatible ((k, v) ∷ rest) h =
      rw (agrees-Compatible _ _ (h k)) (all_agree_of_Compatible rest h)

  pub Compatible-all_agree :
      (m : List (Bytes × ℕ))
      → ((k : Bytes) → lookup k m ≡ none → b k ≡ none)
      → all_agree a b m ≡ true
      → Compatible a b
  unfolding all_agree
  Compatible-all_agree m unbound h k s t hs ht = elim (Option-cases (lookup k m)) [
    | inl absent ↦ cc (unbound k absent)
    | inr (v, bound) ↦
        let both = all-lookup (λ j. agrees (a j) (b j)) m k h bound in
        (bytes_beq_iff s t).0 (rw (hs, ht) at both)
  ]
