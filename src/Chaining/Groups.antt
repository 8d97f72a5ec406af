-- ===== src/Chaining/Groups.antt =====
-- The groups of `filter_chainable_results` in src/main.rs: a query's index with the indices of its
-- results.
use weggli_enhance.Common.{
  ℕ, suc, ◌<◌, ◌+◌, ◌≡◌, ◌≢◌, refl, sym, ◌∙◌, List, [], ◌∷◌, ◌++◌, some, some-injective, arith,
  nat_beq, nat_beq_iff, length, get_elem?, Any, Any-append, Member, All, All-mono, Bool-cases, inl,
  inr, ap, subst,
}
use weggli_enhance.Sarif.{ResultsCtx}
use weggli_enhance.Chaining.{Groups, push_index, group_from}

module _ (results : List ResultsCtx) where
  -- The result at the index is of the query.
  abbrev pub IsOf : ℕ → ℕ → Type 0
  IsOf q idx = (r : ResultsCtx) × (get_elem? results idx ≡ some r) × (r.query_index ≡ q)

  -- The group holds exactly the indices below `n` of its query's results, and at least one.
  pub record IsGroup (n : ℕ) (g : ℕ × List ℕ) : Type 0 where
    pub inhabited : (idx : ℕ) × Member idx g.1
    pub sound : (idx : ℕ) → Member idx g.1 → (idx < n) × IsOf g.0 idx
    pub complete : (idx : ℕ) → idx < n → IsOf g.0 idx → Member idx g.1

  abbrev pub DistinctGroups : Groups → Type 0
  DistinctGroups [] = Unit
  DistinctGroups (g ∷ gs) = All (λ (h : ℕ × List ℕ). h.0 ≢ g.0) gs × DistinctGroups gs

  -- The groups of the results below `n`.
  pub record AreGroups (n : ℕ) (gs : Groups) : Type 0 where
    pub groups : All (IsGroup n) gs
    pub distinct : DistinctGroups gs
    pub covered : (idx q : ℕ) → idx < n → IsOf q idx → Any (λ (g : ℕ × List ℕ). g.0 ≡ q) gs

  IsGroup-other : (n q : ℕ) (g : ℕ × List ℕ) → IsOf q n → g.0 ≢ q → IsGroup n g → IsGroup (suc n) g
  IsGroup-other n q g (r, er, eq) ne h = record {
    inhabited = h.inhabited;
    sound = λ idx x. let (lt, of) = h.sound idx x in (omega (arith, lt), of);
    complete = λ idx lt (s, es, eg). elim (Bool-cases (nat_beq idx n)) [
      | inl same ↦ absurd (
          ne (
            sym eg
            ∙ (ap (λ (z : ResultsCtx). z.query_index)
                  (some-injective s r
                    (sym es ∙ (ap (get_elem? results) ((nat_beq_iff idx n).0 same) ∙ er)))
                ∙ eq)))
      | inr before ↦ h.complete idx (ground (arith, lt, before)) (s, es, eg)
    ];
  }

  IsGroup-push :
      (n q : ℕ) (is : List ℕ) → IsOf q n → IsGroup n (q, is) → IsGroup (suc n) (q, is ++ n ∷ [])
  IsGroup-push n q is of h = record {
    inhabited = (n, (Any-append (λ x. x ≡ n) is (n ∷ [])).1 (inr (inl refl)));
    sound = λ idx x. elim ((Any-append (λ x. x ≡ idx) is (n ∷ [])).0 x) [
      | inl old ↦ let (lt, o) = h.sound idx old in (omega (arith, lt), o)
      | inr (inl same) ↦ (omega (arith, same), subst (IsOf q) same of)
      | inr (inr never) ↦ absurd never
    ];
    complete = λ idx lt o. elim (Bool-cases (nat_beq n idx)) [
      | inl same ↦
          (Any-append (λ x. x ≡ idx) is (n ∷ [])).1 (inr (inl ((nat_beq_iff n idx).0 same)))
      | inr before ↦
          (Any-append (λ x. x ≡ idx) is (n ∷ [])).1
            (inl (h.complete idx (ground (arith, lt, before)) o))
    ];
  }

  IsGroup-single :
      (n q : ℕ) → IsOf q n → ((idx : ℕ) → idx < n → IsOf q idx → ⊥) → IsGroup (suc n) (q, n ∷ [])
  IsGroup-single n q of none_before = record {
    inhabited = (n, inl refl);
    sound = λ idx x. elim x [
      | inl same ↦ (omega (arith, same), subst (IsOf q) same of)
      | inr never ↦ absurd never
    ];
    complete = λ idx lt o. elim (Bool-cases (nat_beq n idx)) [
      | inl same ↦ inl ((nat_beq_iff n idx).0 same)
      | inr before ↦ absurd (none_before idx (ground (arith, lt, before)) o)
    ];
  }

  IsOf-unique : (p q n : ℕ) → IsOf p n → IsOf q n → p ≡ q
  IsOf-unique p q n (r, er, ep) (s, es, eq) =
      sym ep ∙ (ap (λ (z : ResultsCtx). z.query_index) (some-injective r s (sym er ∙ es)) ∙ eq)

  All-both :
      (P Q : ℕ × List ℕ → Type 0) (gs : Groups) → All P gs → All Q gs → All (λ g. P g × Q g) gs
  All-both P Q [] h k = tt
  All-both P Q (g ∷ gs) h k = ((h.0, k.0), All-both P Q gs h.1 k.1)

  All-Any : (P : ℕ × List ℕ → Type 0) (gs : Groups) → All (λ g. P g → ⊥) gs → Any P gs → ⊥
  All-Any P [] h x = x
  All-Any P (g ∷ gs) h x = elim x [ inl here ↦ h.0 here | inr later ↦ All-Any P gs h.1 later ]

  push_index-All :
      (n p q : ℕ) (gs : Groups)
      → q ≢ p
      → All (λ (h : ℕ × List ℕ). h.0 ≢ p) gs
      → All (λ (h : ℕ × List ℕ). h.0 ≢ p) (push_index q n gs)
  unfolding push_index
  push_index-All n p q [] ne h = (ne, tt)
  push_index-All n p q ((k, is) ∷ gs) ne h = elim (Bool-cases (nat_beq k q)) [
    | inl same ↦ rw same h
    | inr other ↦ rw other (h.0, push_index-All n p q gs ne h.1)
  ]

  push_index-DistinctGroups :
      (n q : ℕ) (gs : Groups) → DistinctGroups gs → DistinctGroups (push_index q n gs)
  unfolding push_index
  push_index-DistinctGroups n q [] d = (tt, tt)
  push_index-DistinctGroups n q ((k, is) ∷ gs) d = elim (Bool-cases (nat_beq k q)) [
    | inl same ↦ rw same d
    | inr other ↦ rw other (
      push_index-All n k q gs (λ e. ground (arith, e, other)) d.0,
      push_index-DistinctGroups n q gs d.1,
    )
  ]

  push_index-old :
      (n p q : ℕ) (gs : Groups)
      → Any (λ (g : ℕ × List ℕ). g.0 ≡ p) gs
      → Any (λ (g : ℕ × List ℕ). g.0 ≡ p) (push_index q n gs)
  unfolding push_index
  push_index-old n p q [] h = absurd h
  push_index-old n p q ((k, is) ∷ gs) h = elim (Bool-cases (nat_beq k q)) [
    | inl same ↦ rw same h
    | inr other ↦
        rw other (elim h [ inl here ↦ inl here | inr later ↦ inr (push_index-old n p q gs later) ])
  ]

  push_index-new : (n q : ℕ) (gs : Groups) → Any (λ (g : ℕ × List ℕ). g.0 ≡ q) (push_index q n gs)
  unfolding push_index
  push_index-new n q [] = inl refl
  push_index-new n q ((k, is) ∷ gs) = elim (Bool-cases (nat_beq k q)) [
    | inl same ↦ rw same (inl ((nat_beq_iff k q).0 same))
    | inr other ↦ rw other (inr (push_index-new n q gs))
  ]

  push_index-IsGroup :
      (n q : ℕ) (gs : Groups)
      → IsOf q n
      → All (IsGroup n) gs
      → DistinctGroups gs
      → (All (λ (h : ℕ × List ℕ). h.0 ≢ q) gs → (idx : ℕ) → idx < n → IsOf q idx → ⊥)
      → All (IsGroup (suc n)) (push_index q n gs)
  unfolding push_index
  push_index-IsGroup n q [] of h d fresh = (IsGroup-single n q of (fresh tt), tt)
  push_index-IsGroup n q ((k, is) ∷ gs) of h d fresh = elim (Bool-cases (nat_beq k q)) [
    | inl same ↦
        let e = (nat_beq_iff k q).0 same in
        rw same (
          IsGroup-push n k is (subst (λ z. IsOf z n) (sym e) of) h.0,
          All-mono _ _ gs
              (λ g (x : IsGroup n g × (g.0 ≢ k)).
                IsGroup-other n q g of (λ eq. x.1 (eq ∙ sym e)) x.0)
              (All-both _ _ gs h.1 d.0),
        )
    | inr other ↦ rw other (
      IsGroup-other n q (k, is) of (λ e. ground (arith, e, other)) h.0,
      push_index-IsGroup n q gs of h.1 d.1 (λ out. fresh ((λ e. ground (arith, e, other)), out)),
    )
  ]

  push_index-AreGroups :
      (n q : ℕ) (gs : Groups) → IsOf q n → AreGroups n gs → AreGroups (suc n) (push_index q n gs)
  push_index-AreGroups n q gs of h = record {
    groups =
        push_index-IsGroup n q gs of h.groups h.distinct
          (λ out idx lt o. All-Any (λ (g : ℕ × List ℕ). g.0 ≡ q) gs out (h.covered idx q lt o));
    distinct = push_index-DistinctGroups n q gs h.distinct;
    covered = λ idx p lt o. elim (Bool-cases (nat_beq n idx)) [
      | inl same ↦
          subst (λ z. Any (λ (g : ℕ × List ℕ). g.0 ≡ z) (push_index q n gs))
            (IsOf-unique q p n of (subst (IsOf p) (sym ((nat_beq_iff n idx).0 same)) o))
            (push_index-new n q gs)
      | inr before ↦ push_index-old n p q gs (h.covered idx p (ground (arith, lt, before)) o)
    ];
  }

  group_from-AreGroups :
      (n : ℕ) (rs : List ResultsCtx) (gs : Groups)
      → ((i : ℕ) → get_elem? rs i ≡ get_elem? results (n + i))
      → AreGroups n gs
      → AreGroups (n + length rs) (group_from n rs gs)
  unfolding group_from
  group_from-AreGroups n [] gs h a = subst (λ z. AreGroups z gs) (omega arith) a
  group_from-AreGroups n (r ∷ rs) gs h a =
      subst (λ z. AreGroups z (group_from (suc n) rs (push_index r.query_index n gs))) (omega arith)
        (group_from-AreGroups (suc n) rs (push_index r.query_index n gs)
          (λ i. h (suc i) ∙ ap (get_elem? results) (omega arith))
          (push_index-AreGroups n r.query_index gs
            (r, sym (h 0 ∙ ap (get_elem? results) (omega arith)), refl) a))

-- The groups of the code are exactly those of the results.
pub group_from-results :
    (results : List ResultsCtx) → AreGroups results (length results) (group_from 0 results [])
group_from-results results =
    subst (λ n. AreGroups results n (group_from 0 results [])) (omega arith)
      (group_from-AreGroups results 0 results [] (λ i. ap (get_elem? results) (omega arith))
        (record { groups = tt; distinct = tt; covered = λ idx q lt o. absurd (omega (arith, lt)) }))
