-- ===== src/Chaining/Agreement.antt =====
-- The tests of `filter_chainable_results` in src/main.rs on one result.
use weggli_enhance.Common.{
  ℕ, ◌≡◌, ◌≢◌, refl, sym, ◌∙◌, Bool, true, false, List, [], ◌∷◌, some, some-injective, arith,
  nat_beq, nat_beq_iff, length, get_elem?, get_elem?-lt, Any, All, Bool-cases, ◌⊎◌, inl, inr, ◌↔◌,
  ap, subst, All-get_elem?, ◌<◌, Outcome, done, panic,
}
use weggli_enhance.Result.{chainable}
use weggli_enhance.Result.Bindings.{IsWellFormed, assignment}
use weggli_enhance.Result.Adopt.{Compatible}
use weggli_enhance.Result.Chain.{chainable_iff}
use weggli_enhance.Sarif.{ResultsCtx}
use weggli_enhance.Chaining.{Groups, any_chainable, chains_with_all}

-- The two results agree on every variable that both assign.
abbrev pub Agrees : ResultsCtx → ResultsCtx → Type 0
Agrees a c = Compatible (assignment a.result a.source) (assignment c.result c.source)

-- Every result fits its source.
abbrev pub AllFitSource : List ResultsCtx → Type 0
AllFitSource = All λ (r : ResultsCtx). IsWellFormed r.source r.result

chainable-done :
    (a c : ResultsCtx)
    → IsWellFormed a.source a.result
    → IsWellFormed c.source c.result
    → (b : Bool) × (chainable a.result a.source c.result c.source ≡ done b)
      × ((b ≡ true) ↔ Agrees a c)
chainable-done a c wa wc =
    go (chainable a.result a.source c.result c.source)
      (chainable_iff a.source c.source a.result c.result wa wc)
  where
    go :
        (o : Outcome Bool)
        → ((o ≢ panic) × ((o ≡ done true) ↔ Agrees a c))
        → (b : Bool) × (o ≡ done b) × ((b ≡ true) ↔ Agrees a c)
    go panic h = absurd (h.0 refl)
    go (done true) h = (true, refl, (λ e. h.1.0 refl, λ g. refl))
    go (done false) h =
        (false, refl, (λ e. absurd (ground (arith, e)), λ g. ground (arith, h.1.1 g)))

module _ (results : List ResultsCtx) (fit : AllFitSource results) (a : ResultsCtx)
    (wa : IsWellFormed a.source a.result) where
  -- The result at the index agrees with `a`.
  abbrev pub AgreesAt : ℕ → Type 0
  AgreesAt idx = (c : ResultsCtx) × (get_elem? results idx ≡ some c) × Agrees a c

  any_chainable-found :
      (idx : ℕ) (is : List ℕ) {c : ResultsCtx}
      → get_elem? results idx ≡ some c
      → chainable a.result a.source c.result c.source ≡ done true
      → any_chainable results a (idx ∷ is) ≡ done true
  unfolding any_chainable
  any_chainable-found idx is e f = rw (e, any_chainable) (rw (f, any_chainable) refl)

  any_chainable-next :
      (idx : ℕ) (is : List ℕ) {c : ResultsCtx}
      → get_elem? results idx ≡ some c
      → chainable a.result a.source c.result c.source ≡ done false
      → any_chainable results a (idx ∷ is) ≡ any_chainable results a is
  unfolding any_chainable
  any_chainable-next idx is e f = rw (e, any_chainable) (rw (f, any_chainable) refl)

  pub any_chainable-AgreesAt :
      (is : List ℕ)
      → All (λ idx. idx < length results) is
      → (b : Bool) × (any_chainable results a is ≡ done b) × ((b ≡ true) ↔ Any AgreesAt is)
  unfolding any_chainable
  any_chainable-AgreesAt [] h = (false, refl, (λ e. absurd (ground (arith, e)), λ n. absurd n))
  any_chainable-AgreesAt (idx ∷ is) h =
      let (c, ec) = get_elem?-lt results idx h.0 in
      let (b, eb, iff) = chainable-done a c wa (All-get_elem? _ results idx fit ec) in
      let (n, en, rest) = any_chainable-AgreesAt is h.1 in
      elim (Bool-cases b) [
        | inl hit ↦ (
          true,
          any_chainable-found idx is ec (eb ∙ ap done hit),
          (λ e. inl (c, ec, iff.0 hit), λ x. refl),
        )
        | inr miss ↦ (
          n,
          any_chainable-next idx is ec (eb ∙ ap done miss) ∙ en,
          (
            λ e. inr (rest.0 e),
            λ x. elim x [
              | inl (d, ed, ag) ↦ absurd (
                  ground
                    (arith, iff.1 (subst (Agrees a) (some-injective d c (sym ed ∙ ec)) ag), miss))
              | inr later ↦ rest.1 later
            ],
          ),
        )
      ]

  -- Every group of another query has a result that agrees with `a`.
  abbrev pub ChainsWith : ℕ → Groups → Type 0
  ChainsWith q = All λ (g : ℕ × List ℕ). (q ≡ g.0) ⊎ Any AgreesAt g.1

  chains_with_all-own :
      (q p : ℕ) (is : List ℕ) (gs : Groups)
      → nat_beq q p ≡ true
      → chains_with_all results q a ((p, is) ∷ gs) ≡ chains_with_all results q a gs
  unfolding chains_with_all
  chains_with_all-own q p is gs e = rw (e, chains_with_all) refl

  chains_with_all-next :
      (q p : ℕ) (is : List ℕ) (gs : Groups)
      → nat_beq q p ≡ false
      → any_chainable results a is ≡ done true
      → chains_with_all results q a ((p, is) ∷ gs) ≡ chains_with_all results q a gs
  unfolding chains_with_all
  chains_with_all-next q p is gs e f = rw (e, chains_with_all) (rw (f, chains_with_all) refl)

  chains_with_all-stop :
      (q p : ℕ) (is : List ℕ) (gs : Groups)
      → nat_beq q p ≡ false
      → any_chainable results a is ≡ done false
      → chains_with_all results q a ((p, is) ∷ gs) ≡ done false
  unfolding chains_with_all
  chains_with_all-stop q p is gs e f = rw (e, chains_with_all) (rw (f, chains_with_all) refl)

  pub chains_with_all-ChainsWith :
      (q : ℕ) (gs : Groups)
      → All (λ (g : ℕ × List ℕ). All (λ idx. idx < length results) g.1) gs
      → (b : Bool) × (chains_with_all results q a gs ≡ done b) × ((b ≡ true) ↔ ChainsWith q gs)
  unfolding chains_with_all
  chains_with_all-ChainsWith q [] h = (true, refl, (λ e. tt, λ x. refl))
  chains_with_all-ChainsWith q ((p, is) ∷ gs) h =
      let (n, en, rest) = chains_with_all-ChainsWith q gs h.1 in
      let (b, eb, iff) = any_chainable-AgreesAt is h.0 in
      elim (Bool-cases (nat_beq q p)) [
        | inl own ↦ (
          n,
          chains_with_all-own q p is gs own ∙ en,
          (λ e. (inl ((nat_beq_iff q p).0 own), rest.0 e), λ x. rest.1 x.1),
        )
        | inr other ↦ elim (Bool-cases b) [
          | inl hit ↦ (
            n,
            chains_with_all-next q p is gs other (eb ∙ ap done hit) ∙ en,
            (λ e. (inr (iff.0 hit), rest.0 e), λ x. rest.1 x.1),
          )
          | inr miss ↦ (
            false,
            chains_with_all-stop q p is gs other (eb ∙ ap done miss),
            (
              λ e. absurd (ground (arith, e)),
              λ x. elim x.0 [
                | inl same ↦ absurd (ground (arith, same, other))
                | inr found ↦ absurd (ground (arith, iff.1 found, miss))
              ],
            ),
          )
        ]
      ]
