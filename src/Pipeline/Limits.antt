-- ===== src/Pipeline/Limits.antt =====
-- The `--unique` filter of src/pipeline.rs.
use weggli_enhance.Common.{
  ℕ, ◌≡◌, ◌≢◌, refl, sym, ◌∙◌, ap, subst, Bool, true, false, List, [], ◌∷◌, none, some,
  some-injective, arith, any, All, All-mono, bytes_beq, bytes_beq_iff, bytes_eq, Outcome, done,
  lookup, Distinct, Bool-cases, Option-cases, inl, inr, ◌↔◌, entries-lookup, ==_refl,
}
use weggli_enhance.Text.{Bytes}
use weggli_enhance.Result.{QueryResult, Vars, value}
use weggli_enhance.Result.Bindings.{IsWellFormed, assignment, assignment-bound, assignment-unbound}
use weggli_enhance.Pipeline.{Options, all_new, check_unique}

-- No two variables have the same text.
abbrev pub IsInjective : QueryResult → Bytes → Type 0
IsInjective m source =
    (j k s : Bytes) → assignment m source j ≡ some s → assignment m source k ≡ some s → j ≡ k

unseen-All :
    (s : Bytes) (seen : List Bytes)
    → (any seen (λ y. bytes_beq y s) ≡ false) ↔ All (λ y. y ≢ s) seen
unseen-All s [] = (λ h. tt, λ h. refl)
unseen-All s (y ∷ seen) = ground (arith, bytes_beq_iff y s, unseen-All s seen)

module _ (source : Bytes) (m : QueryResult) (wf : IsWellFormed source m) where
  abbrev AreEntries : Vars → Type 0
  AreEntries = All (λ (e : Bytes × ℕ). lookup e.0 m.vars ≡ some e.1)

  -- The texts of the variables differ from one another and from those of `seen`.
  abbrev Separate : Vars → List Bytes → Type 0
  Separate [] seen = Unit
  Separate ((k, i) ∷ vars) seen =
      (s : Bytes) × (assignment m source k ≡ some s)
      × All (λ y. y ≢ s) seen
      × Separate vars (s ∷ seen)

  all_new-old :
      (k : Bytes) (i : ℕ) (vars : Vars) (seen : List Bytes) {s : Bytes}
      → value m k source ≡ done (some s)
      → any seen (λ y. bytes_beq y s) ≡ true
      → all_new m source ((k, i) ∷ vars) seen ≡ done false
  unfolding all_new
  all_new-old k i vars seen {s} e old =
      rw (e, all_new)
        (ap
          (λ b. elim b as (λ x. Outcome Bool) [
            | true ↦ done false
            | false ↦ all_new m source vars (s ∷ seen)
          ])
          old)

  all_new-new :
      (k : Bytes) (i : ℕ) (vars : Vars) (seen : List Bytes) {s : Bytes}
      → value m k source ≡ done (some s)
      → any seen (λ y. bytes_beq y s) ≡ false
      → all_new m source ((k, i) ∷ vars) seen ≡ all_new m source vars (s ∷ seen)
  unfolding all_new
  all_new-new k i vars seen {s} e new =
      rw (e, all_new)
        (ap
          (λ b. elim b as (λ x. Outcome Bool) [
            | true ↦ done false
            | false ↦ all_new m source vars (s ∷ seen)
          ])
          new)

  all_new-Separate :
      (vars : Vars) (seen : List Bytes)
      → AreEntries vars
      → (b : Bool) × (all_new m source vars seen ≡ done b) × ((b ≡ true) ↔ Separate vars seen)
  unfolding all_new
  all_new-Separate [] seen h = (true, refl, (λ e. tt, λ e. refl))
  all_new-Separate ((k, i) ∷ vars) seen h =
      let (s, es, ev) = assignment-bound source m k wf h.0 in
      let (b, eb, iff) = all_new-Separate vars (s ∷ seen) h.1 in
      elim (Bool-cases (any seen (λ y. bytes_beq y s))) [
        | inl old ↦ (
          false,
          all_new-old k i vars seen ev old,
          (
            λ e. absurd (ground (arith, e)),
            λ (t, et, fresh, rest). cc (
              (unseen-All s seen).1
                  (subst (λ x. All (λ y. y ≢ x) seen) (some-injective t s (sym et ∙ es)) fresh),
              old,
            ),
          ),
        )
        | inr new ↦ (
          b,
          all_new-new k i vars seen ev new ∙ eb,
          (
            λ e. (s, es, (unseen-All s seen).0 new, iff.0 e),
            λ (t, et, fresh, rest).
                iff.1
                  (subst (λ x. Separate vars (x ∷ seen)) (some-injective t s (sym et ∙ es)) rest),
          ),
        )
      ]

  Separate-unseen :
      (vars : Vars) (seen : List Bytes) (k s : Bytes) {i : ℕ}
      → Separate vars seen
      → lookup k vars ≡ some i
      → assignment m source k ≡ some s
      → All (λ y. y ≢ s) seen
  Separate-unseen [] seen k s sep found e = absurd (ground (arith, found))
  Separate-unseen ((j, n) ∷ vars) seen k s {i} (t, et, fresh, rest) found e =
      elim (Bool-cases (bytes_beq j k)) [
        | inl same ↦
            subst (λ x. All (λ y. y ≢ x) seen)
              (some-injective t s
                (sym et ∙ (ap (assignment m source) ((bytes_beq_iff j k).0 same) ∙ e)))
              fresh
        | inr other ↦ (Separate-unseen vars (t ∷ seen) k s rest (rw other at found) e).1
      ]

  Separate-injective :
      (vars : Vars) (seen : List Bytes) (j k s : Bytes) {a b : ℕ}
      → Separate vars seen
      → lookup j vars ≡ some a
      → lookup k vars ≡ some b
      → assignment m source j ≡ some s
      → assignment m source k ≡ some s
      → j ≡ k
  Separate-injective [] seen j k s sep ej ek aj ak = absurd (ground (arith, ej))
  Separate-injective ((h, n) ∷ vars) seen j k s (t, et, fresh, rest) ej ek aj ak =
      elim (Bool-cases (bytes_beq h j)) [
        | inl hj ↦ elim (Bool-cases (bytes_beq h k)) [
          | inl hk ↦ sym ((bytes_beq_iff h j).0 hj) ∙ (bytes_beq_iff h k).0 hk
          | inr tk ↦ absurd (
              (Separate-unseen vars (t ∷ seen) k s rest (rw tk at ek) ak).0 (
                some-injective t s
                  (sym et ∙ (ap (assignment m source) ((bytes_beq_iff h j).0 hj) ∙ aj))))
        ]
        | inr tj ↦ elim (Bool-cases (bytes_beq h k)) [
          | inl hk ↦ absurd (
              (Separate-unseen vars (t ∷ seen) j s rest (rw tj at ej) aj).0 (
                some-injective t s
                  (sym et ∙ (ap (assignment m source) ((bytes_beq_iff h k).0 hk) ∙ ak))))
          | inr tk ↦ Separate-injective vars (t ∷ seen) j k s rest (rw tj at ej) (rw tk at ek) aj ak
        ]
      ]

  -- The texts in `seen` are those of variables that are not in `vars`.
  abbrev AreOthers : Vars → List Bytes → Type 0
  AreOthers vars = All λ y. (j : Bytes) × (assignment m source j ≡ some y) × (lookup j vars ≡ none)

  AreOthers-tail :
      (k : Bytes) (i : ℕ) (vars : Vars) (seen : List Bytes)
      → AreOthers ((k, i) ∷ vars) seen
      → AreOthers vars seen
  AreOthers-tail k i vars seen = All-mono _ _ seen λ y (j, ej, out).
      elim (Bool-cases (bytes_beq k j)) [
        | inl same ↦ absurd (ground (arith, rw same at out))
        | inr other ↦ (j, ej, rw other at out)
      ]

  injective-Separate :
      (vars : Vars) (seen : List Bytes)
      → IsInjective m source
      → Distinct vars
      → AreEntries vars
      → AreOthers vars seen
      → Separate vars seen
  injective-Separate [] seen inj distinct entries others = tt
  injective-Separate ((k, i) ∷ vars) seen inj distinct entries others =
      let (s, es, ev) = assignment-bound source m k wf entries.0 in
      (
        s,
        es,
        All-mono _ _ seen
            (λ y (j, ej, out) same.
              absurd (ground (arith, rw (inj j k s (ej ∙ ap some same) es, ==_refl k) at out)))
            others,
        injective-Separate vars (s ∷ seen) inj distinct.1 entries.1
            ((k, es, distinct.0), AreOthers-tail k i vars seen others),
      )

assigned :
    (source : Bytes) (m : QueryResult) (k : Bytes) {s : Bytes}
    → assignment m source k ≡ some s
    → (i : ℕ) × (lookup k m.vars ≡ some i)
assigned source m k e = elim (Option-cases (lookup k m.vars)) [
  | inl absent ↦ absurd (ground (arith, assignment-unbound source m k absent, e))
  | inr found ↦ found
]

-- The `--unique` test never panics on a result that fits its source, and with the switch it accepts
-- exactly the results in which no two variables have the same text.
pub check_unique-IsInjective :
    (options : Options) (source : Bytes) (m : QueryResult)
    → IsWellFormed source m
    → (b : Bool) × (check_unique options m source ≡ done b)
      × ((b ≡ true) ↔ (options.unique ≡ true → IsInjective m source))
unfolding check_unique
check_unique-IsInjective options source m wf = elim (Bool-cases options.unique) [
  | inl on ↦
      let entries = entries-lookup m.vars wf.distinct in
      let (b, eb, iff) = all_new-Separate source m wf m.vars [] entries in
      (
        b,
        rw on eb,
        (
          λ e o j k s ej ek.
              let (a, ea) = assigned source m j ej in
              let (c, ec) = assigned source m k ek in
              Separate-injective source m wf m.vars [] j k s (iff.0 e) ea ec ej ek,
          λ inj. iff.1 (injective-Separate source m wf m.vars [] (inj on) wf.distinct entries tt),
        ),
      )
  | inr off ↦ (true, rw off refl, (λ e o. absurd (ground (arith, o, off)), λ h. refl))
]
