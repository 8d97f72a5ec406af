-- ===== src/Sarif/Unique.antt =====
-- The removal of duplicates in `generate_sarif` of src/output/sarif.rs.
use weggli_enhance.Common.{
  ◌≡◌, ◌≢◌, refl, sym, subst, true, false, List, [], ◌∷◌, arith, any, All, All-mono, Any, Member,
  bytes_beq_iff, Bool-cases, ◌⊎◌, inl, inr, ◌↔◌,
}
use weggli_enhance.Sarif.{OutputResults, Key, key_of, key_beq, unique_from, unique_results}

key_beq_iff : (a b : Key) → (key_beq a b ≡ true) ↔ (a ≡ b)
key_beq_iff (p, l, i) (q, m, j) = ground (arith, bytes_beq_iff p q, bytes_beq_iff i j)

-- No result has the key.
abbrev pub Fresh : Key → List OutputResults → Type 0
Fresh k = All λ r. key_of r ≢ k

-- No two results have one key.
abbrev pub DistinctKeys : List OutputResults → Type 0
DistinctKeys [] = Unit
DistinctKeys (r ∷ rs) = Fresh (key_of r) rs × DistinctKeys rs

abbrev Seen : Key → List Key → Type 0
Seen k = Any λ j. j ≡ k

Seen-iff : (k : Key) (seen : List Key) → (any seen (λ j. key_beq j k) ≡ true) ↔ Seen k seen
Seen-iff k [] = (λ h. cc, λ h. absurd h)
Seen-iff k (j ∷ seen) = ground (arith, key_beq_iff j k, Seen-iff k seen)

unique_from-old :
    (seen : List Key) (r : OutputResults) (rs : List OutputResults)
    → any seen (λ j. key_beq j (key_of r)) ≡ true
    → unique_from seen (r ∷ rs) ≡ unique_from seen rs
unfolding unique_from
unique_from-old seen r rs old = rw (old, unique_from)

unique_from-new :
    (seen : List Key) (r : OutputResults) (rs : List OutputResults)
    → any seen (λ j. key_beq j (key_of r)) ≡ false
    → unique_from seen (r ∷ rs) ≡ r ∷ unique_from (key_of r ∷ seen) rs
unfolding unique_from
unique_from-new seen r rs new = rw (new, unique_from)

unique_from-Fresh :
    (k : Key) (seen : List Key) (rs : List OutputResults)
    → Seen k seen
    → Fresh k (unique_from seen rs)
unique_from-Fresh k seen [] h = unfold unique_from in tt
unique_from-Fresh k seen (r ∷ rs) h = elim (Bool-cases (any seen (λ j. key_beq j (key_of r)))) [
  | inl old ↦ rw (unique_from-old seen r rs old) (unique_from-Fresh k seen rs h)
  | inr new ↦ rw (unique_from-new seen r rs new) (
    λ e. cc ((Seen-iff (key_of r) seen).1 (rw e h), new),
    unique_from-Fresh k (key_of r ∷ seen) rs (inr h),
  )
]

unique_from-DistinctKeys :
    (seen : List Key) (rs : List OutputResults) → DistinctKeys (unique_from seen rs)
unique_from-DistinctKeys seen [] = unfold unique_from in tt
unique_from-DistinctKeys seen (r ∷ rs) = elim (Bool-cases (any seen (λ j. key_beq j (key_of r)))) [
  | inl old ↦ rw (unique_from-old seen r rs old) (unique_from-DistinctKeys seen rs)
  | inr new ↦ rw (unique_from-new seen r rs new) (
    unique_from-Fresh (key_of r) (key_of r ∷ seen) rs (inl refl),
    unique_from-DistinctKeys (key_of r ∷ seen) rs,
  )
]

-- The keys of `rs` are among those seen and those of `us`.
abbrev Covers : List Key → List OutputResults → List OutputResults → Type 0
Covers seen rs us = All (λ r. Seen (key_of r) seen ⊎ Any (λ u. key_of u ≡ key_of r) us) rs

-- Every key of the input is among the keys seen or among those of the output.
unique_from-Covers :
    (seen : List Key) (rs : List OutputResults) → Covers seen rs (unique_from seen rs)
unique_from-Covers seen [] = tt
unique_from-Covers seen (r ∷ rs) = elim (Bool-cases (any seen (λ j. key_beq j (key_of r)))) [
  | inl old ↦
      subst (Covers seen (r ∷ rs)) (sym (unique_from-old seen r rs old))
        (inl ((Seen-iff (key_of r) seen).0 old), unique_from-Covers seen rs)
  | inr new ↦ subst (Covers seen (r ∷ rs)) (sym (unique_from-new seen r rs new)) (
    inr (inl refl),
    All-mono _ _ rs
        (λ s h. elim h [
          | inl before ↦ elim before [
            | inl same ↦ inr (inl same)
            | inr long_before ↦ inl long_before
          ]
          | inr kept ↦ inr (inr kept)
        ])
        (unique_from-Covers (key_of r ∷ seen) rs),
  )
]

unique_from-Member :
    (seen : List Key) (rs : List OutputResults) (u : OutputResults)
    → Member u (unique_from seen rs)
    → Member u rs
unique_from-Member seen [] u h = unfold unique_from in h
unique_from-Member seen (r ∷ rs) u h = elim (Bool-cases (any seen (λ j. key_beq j (key_of r)))) [
  | inl old ↦ inr (unique_from-Member seen rs u (rw (unique_from-old seen r rs old) at h))
  | inr new ↦
      let h' : (r ≡ u) ⊎ Member u (unique_from (key_of r ∷ seen) rs) =
        rw (unique_from-new seen r rs new) at h in
      elim h' [
        | inl same ↦ inl same
        | inr kept ↦ inr (unique_from-Member (key_of r ∷ seen) rs u kept)
      ]
]

-- The SARIF results are those of the input without duplicates: no two have the same path, start line
-- and issue, each is a result of the input, and each result of the input has one with its key.
pub unique_results-DistinctKeys :
    (rs : List OutputResults)
    → DistinctKeys (unique_results rs)
      × ((u : OutputResults) → Member u (unique_results rs) → Member u rs)
      × All (λ r. Any (λ u. key_of u ≡ key_of r) (unique_results rs)) rs
unfolding unique_results
unique_results-DistinctKeys rs = (
  unique_from-DistinctKeys [] rs,
  unique_from-Member [] rs,
  All-mono _ _ rs (λ r h. elim h [ inl never ↦ absurd never | inr kept ↦ kept ])
      (unique_from-Covers [] rs),
)
