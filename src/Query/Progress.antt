-- ===== src/Query/Progress.antt =====
-- The loop of `process_match` in src/query.rs over the captures of one match, and the invariant of
-- its partial result.
use weggli_enhance.Common.{
  ℕ, ◌<◌, ◌≡◌, refl, Bool, true, false, not, ◌&&◌, ◌||◌, List, [], ◌∷◌, Option, none, some, arith,
  All, All-get_elem?, All-append, All-mono, length, length-append, get_elem?, get_elem?-lt,
  insert-All, insert-Distinct, bytes_eq, Distinct, Outcome, done, panic, Bool-cases, Option-cases,
  ◌⊎◌, inl, inr,
}
use weggli_enhance.Common.Int.{ℤ, int_beq}
use weggli_enhance.Number.{parse_number_literal}
use weggli_enhance.Text.{Bytes, is_sliceable, slice-done}
use weggli_enhance.Result.{CaptureResult}
use weggli_enhance.Query.Tree.{
  Capture, display, variable, check, number, call_exp_query, sub_wild_query, sub_multi_query,
  is_sub_multi_query,
}
use weggli_enhance.Query.Regexes.{Covers, constraint_regexes, own_regexes}
use weggli_enhance.Query.Engine.{
  TreeSitter, Progress, scan, inspect, record_capture, passes, has_value, has_arguments,
}

-- A capture with a sub query.
abbrev pub IsSub : {Pattern Regex : Type 0} → Capture Pattern Regex → Type 0
IsSub (sub_wild_query t) = Unit
IsSub (sub_multi_query t) = Unit
IsSub _ = ⊥

-- The documented behaviour of tree-sitter that the matcher relies on: a node's range is a slice of its
-- source.
pub record IsSane (ts : TreeSitter) (source : Bytes) : Type 0 where
  pub ranges : (n : ts.Node) → is_sliceable source (ts.byte_range n) ≡ true

module _ (ts : TreeSitter) (source : Bytes) (sane : IsSane ts source) where
  open ts use {Pattern, Regex, Node, byte_range}

  abbrev pub HasSub : List (Capture Pattern Regex) → ℕ × Node → Type 0
  HasSub cs q = (t : Capture Pattern Regex) × (get_elem? cs q.0 ≡ some t) × IsSub t

  -- What the loop of `process_match` keeps.
  pub record IsProgress (cs : List (Capture Pattern Regex)) (p : Progress ts source) : Type 0 where
    pub in_range : All (λ (e : Bytes × ℕ). e.1 < length p.r) p.vars
    pub distinct : Distinct p.vars
    pub sliceable : All (λ (c : CaptureResult). is_sliceable source c.range ≡ true) p.r
    pub subs : All (HasSub cs) p.subqueries

  -- Early returns keep nothing, and a panic is the failure `Fail`.
  abbrev pub Kept :
      Type 0 → List (Capture Pattern Regex) → Outcome (Option (Progress ts source)) → Type 0
  Kept Fail cs (done (some p)) = IsProgress cs p
  Kept Fail cs (done none) = Unit
  Kept Fail cs panic = Fail

  -- A constraint is decided, or its expression gives an error.
  passes-cases :
      (Fail : Type 0) (constraint : Option (Bool × Regex)) (node : Node)
      → Covers ts source Fail (constraint_regexes constraint)
      → ((b : Bool) × (passes ts source constraint node ≡ done b))
        ⊎ ((passes ts source constraint node ≡ panic) × Fail)
  unfolding passes
  passes-cases Fail none node covers = inl (true, refl)
  passes-cases Fail (some (negative, regex)) node covers =
      let (text, e) = slice-done source (byte_range node) (sane.ranges node) in
      elim (Option-cases (ts.is_match regex text)) [
        | inl error ↦ inr (rw (e, passes) (rw error refl), covers.0 (node, text, e, error))
        | inr (m, answer) ↦
            inl (not (m && negative || not m && not negative), rw (e, passes) (rw answer))
      ]

  has_value-done : (i : ℤ) (node : Node) → (b : Bool) × (has_value ts source i node ≡ done b)
  unfolding has_value
  has_value-done i node =
      let (text, e) = slice-done source (byte_range node) (sane.ranges node) in
      (elim (parse_number_literal text) [ none ↦ false | some y ↦ int_beq i y ], rw (e, has_value))

  -- Progress with one more capture recorded, before the capture is inspected: a variable's entry
  -- names the last capture.
  pub record_capture-IsProgress :
      (id : ℕ) (cs : List (Capture Pattern Regex)) (c : Capture Pattern Regex) (index : ℕ)
      (node : Node) (p : Progress ts source)
      → IsProgress cs p
      → IsProgress cs (record_capture ts source id c index node p)
  unfolding record_capture
  record_capture-IsProgress id cs c index node p h = elim (Bool-cases (is_sub_multi_query c)) [
    | inl multi ↦ rw multi h
    | inr plain ↦ rw plain (record {
      in_range =
          All-mono _ _ p.vars (λ e lt. omega (arith, length-append {0} p.r (_ ∷ []))) h.in_range;
      distinct = h.distinct;
      sliceable = All-append _ p.r _ h.sliceable (sane.ranges node, tt);
      subs = h.subs;
    })
  ]

  inspect-Kept :
      (Fail : Type 0) (cs : List (Capture Pattern Regex)) (c : Capture Pattern Regex) (index : ℕ)
      (node : Node) (p : Progress ts source)
      → get_elem? cs index ≡ some c
      → Covers ts source Fail (own_regexes c)
      → (is_sub_multi_query c ≡ false → 0 < length p.r)
      → IsProgress cs p
      → Kept Fail cs (inspect ts source c index node p)
  unfolding inspect own_regexes
  inspect-Kept Fail cs display index node p found covers pos h = h
  inspect-Kept Fail cs (check s) index node p found covers pos h = h
  inspect-Kept Fail cs (variable s constraint) index node p found covers pos h =
      elim (passes-cases Fail constraint node covers) [
        | inr (e, failure) ↦ rw (e, inspect) failure
        | inl (b, e) ↦ elim (Bool-cases b) [
          | inl passed ↦
              rw (e, passed, inspect)
                (record {
                  in_range =
                      insert-All (λ i. i < length p.r) s _ p.vars (omega (arith, pos refl))
                        h.in_range;
                  distinct = insert-Distinct s _ p.vars h.distinct;
                  sliceable = h.sliceable;
                  subs = h.subs;
                })
          | inr failed ↦ rw (e, failed, inspect) tt
        ]
      ]
  inspect-Kept Fail cs (sub_wild_query t) index node p found covers pos h = record {
    in_range = h.in_range;
    distinct = h.distinct;
    sliceable = h.sliceable;
    subs = All-append _ p.subqueries _ h.subs ((sub_wild_query t, found, tt), tt);
  }
  inspect-Kept Fail cs (sub_multi_query t) index node p found covers pos h = record {
    in_range = h.in_range;
    distinct = h.distinct;
    sliceable = h.sliceable;
    subs = All-append _ p.subqueries _ h.subs ((sub_multi_query t, found, tt), tt);
  }
  inspect-Kept Fail cs (call_exp_query len minimum) index node p found covers pos h =
      elim (Bool-cases (has_arguments ts source len minimum node)) [
        | inl enough ↦ rw enough h
        | inr few ↦ rw few tt
      ]
  inspect-Kept Fail cs (number i) index node p found covers pos h =
      let (b, e) = has_value-done i node in
      elim (Bool-cases b) [
        | inl same ↦ rw (e, same, inspect) h
        | inr differ ↦ rw (e, differ, inspect) tt
      ]

  record_capture-pos :
      (id : ℕ) (c : Capture Pattern Regex) (index : ℕ) (node : Node) (p : Progress ts source)
      → is_sub_multi_query c ≡ false
      → 0 < length (record_capture ts source id c index node p).r
  unfolding record_capture
  record_capture-pos id c index node p plain =
      rw plain (omega (arith, length-append {0} p.r (_ ∷ [])))

  -- The loop keeps the invariant where every capture of the match is one of the tree.
  pub scan-Kept :
      (Fail : Type 0) (id : ℕ) (cs : List (Capture Pattern Regex)) (ms : List (ℕ × Node))
      (p : Progress ts source)
      → All (λ (m : ℕ × Node). m.0 < length cs) ms
      → All (λ (c : Capture Pattern Regex). Covers ts source Fail (own_regexes c)) cs
      → IsProgress cs p
      → Kept Fail cs (scan ts source id cs ms p)
  unfolding scan
  scan-Kept Fail id cs [] p known covers h = h
  scan-Kept Fail id cs ((index, node) ∷ ms) p known covers h =
      let (c, found) = get_elem?-lt cs index known.0 in
      let before = record_capture-IsProgress id cs c index node p h in
      rw (found, scan)
        (next (inspect ts source c index node (record_capture ts source id c index node p))
          (inspect-Kept Fail cs c index node _ found (All-get_elem? _ cs index covers found)
            (record_capture-pos id c index node p) before)
          (λ p' h'. scan-Kept Fail id cs ms p' known.1 covers h'))
    where
      next :
          (o : Outcome (Option (Progress ts source)))
          → Kept Fail cs o
          → ((p' : Progress ts source)
              → IsProgress cs p'
              → Kept Fail cs (scan ts source id cs ms p'))
          → Kept Fail cs (elim o [
            | panic ↦ panic
            | done none ↦ done none
            | done (some p') ↦ scan ts source id cs ms p'
          ])
      next (done (some p')) k rest = rest p' k
      next (done none) k rest = tt
      next panic k rest = k
