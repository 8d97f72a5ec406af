-- ===== src/Cluster/Forgotten.antt =====
-- examples/cluster.c: how long the black list remembers a node.
use weggli_enhance.Common.{
  ℕ, ◌+◌, ◌≤◌, ◌≡◌, refl, sym, subst, Bool, true, false, not, List, [], ◌∷◌, Option, none, some,
  some-injective, ltb, arith, HasEquality, ◌==◌, lookup, insert, Distinct, insert-Distinct,
  lookup-insert_self, filter, if◌then◌else◌, bytes_eq, Bool-cases, inl, inr, ◌↔◌,
}
use weggli_enhance.Text.{Bytes}
use weggli_enhance.Cluster.State.{Cluster}
use weggli_enhance.Cluster.Epochs.{
  blacklist_ttl, blacklist_cleanup, blacklist_add_node, blacklist_exists,
}

module _ {ℓ} {K V : Type ℓ} ⦃e : HasEquality K⦄ (q : V → Bool) where
  lookup-filter_fresh :
      (k : K) (m : List (K × V)) → lookup k m ≡ none → lookup k (filter (λ x. q x.1) m) ≡ none
  lookup-filter_fresh k [] h = refl
  lookup-filter_fresh k ((i, w) ∷ m) h = elim (Bool-cases (i == k)) [
    | inl same ↦ absurd (ground (arith, rw same at h))
    | inr other ↦ elim (Bool-cases (q w)) [
      | inl keep ↦ rw keep (rw other (lookup-filter_fresh k m (rw other at h)))
      | inr drop ↦ rw drop (lookup-filter_fresh k m (rw other at h))
    ]
  ]

  -- In a map a look-up after a filter finds the value that was there, where the filter keeps it.
  lookup-filter :
      (k : K) (v : V) (m : List (K × V))
      → Distinct m
      → lookup k m ≡ some v
      → lookup k (filter (λ x. q x.1) m) ≡ (if q v then some v else none)
  lookup-filter k v [] d h = absurd (ground (arith, h))
  lookup-filter k v ((i, w) ∷ m) (fresh, d) h = elim (Bool-cases (i == k)) [
    | inl same ↦
        let wv : w ≡ v = some-injective w v (rw same at h) in
        let gone : lookup k m ≡ none = rw ((e.same_iff i k).0 same) at fresh in
        elim (Bool-cases (q w)) [
          | inl keep ↦ rw keep (rw (same, ← wv) (rw keep refl))
          | inr drop ↦ rw drop (rw (← wv) (rw drop (lookup-filter_fresh k m gone)))
        ]
    | inr other ↦ elim (Bool-cases (q w)) [
      | inl keep ↦ rw keep (rw other (lookup-filter k v m d (rw other at h)))
      | inr drop ↦ rw drop (lookup-filter k v m d (rw other at h))
    ]
  ]

  filter-Distinct : (m : List (K × V)) → Distinct m → Distinct (filter (λ x. q x.1) m)
  filter-Distinct [] d = tt
  filter-Distinct ((i, w) ∷ m) (fresh, d) = elim (Bool-cases (q w)) [
    | inl keep ↦ rw keep (lookup-filter_fresh i m fresh, filter-Distinct m d)
    | inr drop ↦ rw drop (filter-Distinct m d)
  ]

-- The value of an entry decides whether a look-up finds it.
found :
    (u t : ℕ)
    → (elim (if not (ltb t u) then some t else none) as (λ o. Bool) [ none ↦ false | some x ↦ true ]
        ≡ true)
      ↔ (u ≤ t)
found u t = elim (Bool-cases (ltb t u)) [
  | inl e ↦ rw e (λ h. absurd (ground (arith, h)), λ h. absurd (ground (arith, h, e)))
  | inr e ↦ rw e (λ h. ground (arith, e), λ h. refl)
]

-- A node that was put on the black list, which has no two entries of one name, is found there up to
-- the end of its time, and not afterwards.
pub blacklist_add_node-exists :
    (unixtime time u p : ℕ) (c : Cluster)
    → Distinct c.black_list
    → ((blacklist_exists u (c.heap p).name (blacklist_add_node unixtime time p c)).1 ≡ true)
      ↔ (u ≤ time + blacklist_ttl)
unfolding blacklist_exists blacklist_add_node blacklist_cleanup
blacklist_add_node-exists unixtime time u p c d =
    let name = (c.heap p).name in
    let until = time + blacklist_ttl in
    let kept = filter (λ (x : Bytes × ℕ). not (ltb x.1 unixtime)) c.black_list in
    let d' : Distinct kept = filter-Distinct (λ t. not (ltb t unixtime)) c.black_list d in
    let looked =
      lookup-filter (λ t. not (ltb t u)) name until (insert name until kept)
        (insert-Distinct name until kept d') (lookup-insert_self name until kept) in
    subst
      (λ (o : Option ℕ).
        (elim o as (λ o. Bool) [ none ↦ false | some x ↦ true ] ≡ true) ↔ (u ≤ until))
      (sym looked) (found u until)
