-- ===== src/Cluster/Newest.antt =====
-- examples/cluster.c: `clusterGetMaxEpoch` and a new epoch of this node.
use weggli_enhance.Common.{
  ℕ, ◌<◌, ◌≤◌, ◌≡◌, ◌≢◌, refl, sym, ap, true, false, not, ◌||◌, List, [], ◌∷◌, nat_beq, ltb, arith,
  Bool-cases, ◌⊎◌, inl, inr, Member,
}
use weggli_enhance.Text.{Bytes}
use weggli_enhance.Cluster.State.{Node, Cluster}
use weggli_enhance.Cluster.Epochs.{max_epoch_from, get_max_epoch, take_new_epoch, bump_config_epoch}
use weggli_enhance.Cluster.Voting.Epochs.{HasNext}

max_epoch_from-start :
    (heap : ℕ → Node) (d : List (Bytes × ℕ)) (max : ℕ) → max ≤ max_epoch_from heap d max
unfolding max_epoch_from
max_epoch_from-start heap [] max = omega arith
max_epoch_from-start heap ((name, p) ∷ d) max = elim (Bool-cases (ltb max (heap p).config_epoch)) [
  | inl e ↦ rw e (let h = max_epoch_from-start heap d (heap p).config_epoch in ground (arith, e, h))
  | inr e ↦ rw e (max_epoch_from-start heap d max)
]

max_epoch_from-bound :
    (heap : ℕ → Node) (d : List (Bytes × ℕ)) (max : ℕ) (e : Bytes × ℕ)
    → Member e d
    → (heap e.1).config_epoch ≤ max_epoch_from heap d max
unfolding max_epoch_from
max_epoch_from-bound heap [] max e m = absurd m
max_epoch_from-bound heap ((name, p) ∷ d) max e (inr m) = max_epoch_from-bound heap d _ e m
max_epoch_from-bound heap ((name, p) ∷ d) max e (inl same) =
    let here : (heap e.1).config_epoch ≡ (heap p).config_epoch =
      ap (λ (x : Bytes × ℕ). (heap x.1).config_epoch) (sym same) in
    elim (Bool-cases (ltb max (heap p).config_epoch)) [
      | inl f ↦
          rw f (let h = max_epoch_from-start heap d (heap p).config_epoch in omega (arith, here, h))
      | inr f ↦ rw f (let h = max_epoch_from-start heap d max in ground (arith, f, here, h))
    ]

-- The maximum is the epoch of some node, or the start.
max_epoch_from-attained :
    (heap : ℕ → Node) (d : List (Bytes × ℕ)) (max : ℕ)
    → (max_epoch_from heap d max ≡ max)
      ⊎ ((e : Bytes × ℕ) × Member e d × (max_epoch_from heap d max ≡ (heap e.1).config_epoch))
unfolding max_epoch_from
max_epoch_from-attained heap [] max = inl refl
max_epoch_from-attained heap ((name, p) ∷ d) max =
    elim (Bool-cases (ltb max (heap p).config_epoch)) [
      | inl f ↦ rw f (elim (max_epoch_from-attained heap d (heap p).config_epoch) [
        | inl e ↦ inr ((name, p), inl refl, e)
        | inr (e, m, g) ↦ inr (e, inr m, g)
      ])
      | inr f ↦ rw f (elim (max_epoch_from-attained heap d max) [
        | inl e ↦ inl e
        | inr (e, m, g) ↦ inr (e, inr m, g)
      ])
    ]

get_max_epoch-bound :
    (c : Cluster)
    → (c.current_epoch ≤ get_max_epoch c)
      × ((e : Bytes × ℕ) → Member e c.nodes → (c.heap e.1).config_epoch ≤ get_max_epoch c)
unfolding get_max_epoch
get_max_epoch-bound c =
    let max = max_epoch_from c.heap c.nodes 0 in
    elim (Bool-cases (ltb max c.current_epoch)) [
      | inl f ↦ rw f (
        omega arith,
        λ e m. let h = max_epoch_from-bound c.heap c.nodes 0 e m in ground (arith, f, h),
      )
      | inr f ↦ rw f (ground (arith, f), λ e m. max_epoch_from-bound c.heap c.nodes 0 e m)
    ]

-- No other node has an epoch that reaches this node's.
pub IsNewest : Cluster → Type 0
IsNewest c =
    (e : Bytes × ℕ)
    → Member e c.nodes
    → e.1 ≢ c.myself
    → (c.heap e.1).config_epoch < (c.heap c.myself).config_epoch

take_new_epoch-IsNewest :
    (c : Cluster)
    → ((e : Bytes × ℕ) → Member e c.nodes → (c.heap e.1).config_epoch ≤ c.current_epoch)
    → HasNext c.current_epoch
    → IsNewest (take_new_epoch c)
unfolding take_new_epoch IsNewest
take_new_epoch-IsNewest c below h e m other =
    let apart : nat_beq e.1 c.myself ≡ false = ground (arith, other) in
    let self : nat_beq c.myself c.myself ≡ true = ground arith in
    let b = below e m in rw (apart, self) (omega (arith, b, h))

-- A bump takes an epoch that no other node reaches, or it fails, changes nothing, and this node has
-- the greatest epoch already. No node has an epoch beyond the current one, which is not the last one
-- of a `uint64_t`.
pub bump_config_epoch-IsNewest :
    (c : Cluster)
    → ((e : Bytes × ℕ) → Member e c.nodes → (c.heap e.1).config_epoch ≤ c.current_epoch)
    → HasNext c.current_epoch
    → (((bump_config_epoch c).1 ≡ true) × IsNewest (bump_config_epoch c).0)
      ⊎ ((bump_config_epoch c ≡ (c, false))
          × ((e : Bytes × ℕ)
              → Member e c.nodes
              → (c.heap e.1).config_epoch ≤ (c.heap c.myself).config_epoch))
unfolding bump_config_epoch IsNewest
bump_config_epoch-IsNewest c below h =
    let mine = (c.heap c.myself).config_epoch in
    elim (Bool-cases (nat_beq mine 0 || not (nat_beq mine (get_max_epoch c)))) [
      | inl e ↦ inl (rw (e, bump_config_epoch) (refl, take_new_epoch-IsNewest c below h))
      | inr e ↦ inr (
        rw (e, bump_config_epoch) refl,
        λ x m.
            let max : mine ≡ get_max_epoch c = same_max mine (get_max_epoch c) e in
            let b = (get_max_epoch-bound c).1 x m in omega (arith, max, b),
      )
    ]
  where
    same_max : (m n : ℕ) → nat_beq m 0 || not (nat_beq m n) ≡ false → m ≡ n
    same_max m n e = ground (arith, e)
