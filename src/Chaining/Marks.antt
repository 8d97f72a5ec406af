-- ===== src/Chaining/Marks.antt =====
-- The vector `keep` of `filter_chainable_results` in src/main.rs.
use weggli_enhance.Common.{
  ℕ, zero, suc, ◌<◌, ◌≡◌, ◌≢◌, refl, sym, ◌∙◌, Bool, true, List, [], ◌∷◌, some, some-injective,
  arith, nat_beq, nat_beq_iff, length, get_elem?, get_elem?-length, Any, Member, All, All-mono,
  All-index, Any-index, index-Any, Any-Member, Member-Any, Member-All, All-Member, Bool-cases, ◌⊎◌,
  inl, inr, ◌↔◌, ap, subst, All-get_elem?, done,
}
use weggli_enhance.Result.Bindings.{IsWellFormed}
use weggli_enhance.Sarif.{ResultsCtx}
use weggli_enhance.Chaining.{Groups, chains_with_all, set_at, mark_group, mark_all}
use weggli_enhance.Chaining.Groups.{IsOf, IsGroup, AreGroups}
use weggli_enhance.Chaining.Agreement.{Agrees, AllFitSource, ChainsWith, chains_with_all-ChainsWith}

pub set_at-done :
    (idx : ℕ) (b : Bool) (keep : List Bool)
    → idx < length keep
    → (keep' : List Bool) × (set_at idx b keep ≡ done keep')
      × (length keep' ≡ length keep)
      × (get_elem? keep' idx ≡ some b)
      × ((j : ℕ) → j ≢ idx → get_elem? keep' j ≡ get_elem? keep j)
unfolding set_at
set_at-done idx b [] lt = absurd (omega arith)
set_at-done zero b (k ∷ ks) lt = (b ∷ ks, refl, refl, refl, go)
  where
    go : (j : ℕ) → j ≢ zero → get_elem? (b ∷ ks) j ≡ get_elem? (k ∷ ks) j
    go zero ne = absurd (ne refl)
    go (suc j) ne = refl
set_at-done (suc idx) b (k ∷ ks) lt =
    let (ks', e, same, here, others) = set_at-done idx b ks (omega arith) in
    (k ∷ ks', rw e refl, ap suc same, here, go ks' others)
  where
    go :
        (ks' : List Bool)
        → ((j : ℕ) → j ≢ idx → get_elem? ks' j ≡ get_elem? ks j)
        → (j : ℕ) → j ≢ suc idx
        → get_elem? (k ∷ ks') j ≡ get_elem? (k ∷ ks) j
    go ks' others zero ne = refl
    go ks' others (suc j) ne = others j (λ e. ne (ap suc e))

-- Every other query has a result that agrees with `a`.
abbrev pub IsKept : List ResultsCtx → ResultsCtx → Type 0
IsKept results a =
    All
      (λ (b : ResultsCtx).
        (a.query_index ≡ b.query_index)
        ⊎ Any (λ (c : ResultsCtx). (c.query_index ≡ b.query_index) × Agrees a c) results)
      results

module _ (results : List ResultsCtx) (fit : AllFitSource results) (groups : Groups)
    (are : AreGroups results (length results) groups) where
  ChainsWith-IsKept :
      (a : ResultsCtx) (wa : IsWellFormed a.source a.result)
      → ChainsWith results fit a wa a.query_index groups ↔ IsKept results a
  ChainsWith-IsKept a wa = (
    λ h. All-index _ results λ i b eb.
        let (g, mg, eg) =
          Any-Member _ groups
            (are.covered i b.query_index (get_elem?-length results i eb) (b, eb, refl)) in
        let group = Member-All _ groups g are.groups mg in
        elim (Member-All _ groups g h mg) [
          | inl own ↦ inl (own ∙ eg)
          | inr found ↦
              let (idx, mi, (c, ec, agree)) = Any-Member _ g.1 found in
              let (d, ed, qd) = (group.sound idx mi).1 in
              inr (
                index-Any _ results idx ec (
                  ap (λ (z : ResultsCtx). z.query_index) (some-injective c d (sym ec ∙ ed))
                      ∙ (qd ∙ eg),
                  agree,
                ))
        ],
    λ h. All-Member _ groups λ g mg.
        let group = Member-All _ groups g are.groups mg in
        let (idx, mi) = group.inhabited in
        let (b, eb, qb) = (group.sound idx mi).1 in
        elim (All-get_elem? _ results idx h eb) [
          | inl own ↦ inl (own ∙ qb)
          | inr found ↦
              let (j, c, ec, (qc, agree)) = Any-index _ results found in
              inr (
                Member-Any _ g.1 j
                  (group.complete j (get_elem?-length results j ec) (c, ec, qc ∙ qb))
                  (c, ec, agree))
        ],
  )

  in_range : All (λ (g : ℕ × List ℕ). All (λ idx. idx < length results) g.1) groups
  in_range =
      All-mono _ _ groups
        (λ g (group : IsGroup results (length results) g).
          All-Member _ g.1 λ idx mi. (group.sound idx mi).0)
        are.groups

  -- The entry of `keep` at the index is right.
  abbrev pub Marked : ℕ → List Bool → Type 0
  Marked idx keep =
      (b : Bool) × (get_elem? keep idx ≡ some b)
      × (a : ResultsCtx) × (get_elem? results idx ≡ some a)
      × ((b ≡ true) ↔ IsKept results a)

  -- `keep'` has the right entries of `keep`, and those for which `New` holds.
  pub record Improves (keep keep' : List Bool) (New : ℕ → Type 0) : Type 0 where
    pub same_length : length keep' ≡ length keep
    pub marked : (idx : ℕ) → Marked idx keep ⊎ New idx → Marked idx keep'

  mark_group-step :
      (q idx : ℕ) (is : List ℕ) (keep keep' : List Bool) {a : ResultsCtx} {b : Bool}
      → get_elem? results idx ≡ some a
      → chains_with_all results q a groups ≡ done b
      → set_at idx b keep ≡ done keep'
      → mark_group results groups q (idx ∷ is) keep ≡ mark_group results groups q is keep'
  unfolding mark_group
  mark_group-step q idx is keep keep' e f g =
      rw (e, mark_group) (rw (f, mark_group) (rw (g, mark_group) refl))

  mark_group-Improves :
      (q : ℕ) (is : List ℕ) (keep : List Bool)
      → All (λ idx. (idx < length results) × IsOf results q idx) is
      → length keep ≡ length results
      → (keep' : List Bool) × (mark_group results groups q is keep ≡ done keep')
        × Improves keep keep' (λ idx. Member idx is)
  unfolding mark_group
  mark_group-Improves q [] keep h len = (
    keep,
    refl,
    record {
      same_length = refl;
      marked = λ idx x. elim x [ inl m ↦ m | inr never ↦ absurd never ];
    },
  )
  mark_group-Improves q (idx ∷ is) keep h len =
      let (a, ea, qa) = h.0.1 in
      let wa = All-get_elem? _ results idx fit ea in
      let (b, eb, iff) = chains_with_all-ChainsWith results fit a wa q groups in_range in
      let (k1, e1, len1, here, others) = set_at-done idx b keep (omega (arith, h.0.0, len)) in
      let (k2, e2, imp) = mark_group-Improves q is k1 h.1 (len1 ∙ len) in
      let same = ChainsWith-IsKept a wa in
      let right : Marked idx k1 = (
        b,
        here,
        a,
        ea,
        (
          λ e. same.0 (subst (λ z. ChainsWith results fit a wa z groups) (sym qa) (iff.0 e)),
          λ k. iff.1 (subst (λ z. ChainsWith results fit a wa z groups) qa (same.1 k)),
        ),
      ) in
      (
        k2,
        mark_group-step q idx is keep k1 ea eb e1 ∙ e2,
        record {
          same_length = imp.same_length ∙ len1;
          marked = λ j x. elim (Bool-cases (nat_beq idx j)) [
            | inl at ↦
                imp.marked j (inl (subst (λ z. Marked z k1) ((nat_beq_iff idx j).0 at) right))
            | inr off ↦ elim x [
              | inl (c, ec, d, ed, right_c) ↦
                  imp.marked j
                    (inl (c, others j (λ e. ground (arith, e, off)) ∙ ec, d, ed, right_c))
              | inr (inl at) ↦ absurd (ground (arith, at, off))
              | inr (inr later) ↦ imp.marked j (inr later)
            ]
          ];
        },
      )

  mark_all-step :
      (q : ℕ) (is : List ℕ) (gs : Groups) (keep keep' : List Bool)
      → mark_group results groups q is keep ≡ done keep'
      → mark_all results groups ((q, is) ∷ gs) keep ≡ mark_all results groups gs keep'
  unfolding mark_all
  mark_all-step q is gs keep keep' e = rw (e, mark_all) refl

  pub mark_all-Improves :
      (gs : Groups) (keep : List Bool)
      → All (IsGroup results (length results)) gs
      → length keep ≡ length results
      → (keep' : List Bool) × (mark_all results groups gs keep ≡ done keep')
        × Improves keep keep' (λ idx. Any (λ (g : ℕ × List ℕ). Member idx g.1) gs)
  unfolding mark_all
  mark_all-Improves [] keep h len = (
    keep,
    refl,
    record {
      same_length = refl;
      marked = λ idx x. elim x [ inl m ↦ m | inr never ↦ absurd never ];
    },
  )
  mark_all-Improves ((q, is) ∷ gs) keep h len =
      let (k1, e1, imp1) = mark_group-Improves q is keep (All-Member _ is h.0.sound) len in
      let (k2, e2, imp2) = mark_all-Improves gs k1 h.1 (imp1.same_length ∙ len) in
      (
        k2,
        mark_all-step q is gs keep k1 e1 ∙ e2,
        record {
          same_length = imp2.same_length ∙ imp1.same_length;
          marked = λ idx x. elim x [
            | inl old ↦ imp2.marked idx (inl (imp1.marked idx (inl old)))
            | inr (inl here) ↦ imp2.marked idx (inl (imp1.marked idx (inr here)))
            | inr (inr later) ↦ imp2.marked idx (inr later)
          ];
        },
      )
