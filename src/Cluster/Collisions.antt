-- ===== src/Cluster/Collisions.antt =====
-- examples/cluster.c: `clusterHandleConfigEpochCollision`, for two masters with one epoch.
use weggli_enhance.Common.{
  ℕ, ◌+◌, ◌≡◌, ◌≢◌, refl, ap, ◌∙◌, Bool, true, false, not, ◌||◌, [], ◌∷◌, nat_beq, nat_beq_iff, ltb,
  arith, length, Bool-cases, ◌⊎◌, inl, inr,
}
use weggli_enhance.Text.{Bytes}
use weggli_enhance.Cluster.State.{Cluster}
use weggli_enhance.Cluster.Epochs.{name_le, take_new_epoch, handle_epoch_collision}
use weggli_enhance.Cluster.Voting.Epochs.{HasNext}

-- Of two different names of one length, exactly one is at most the other.
name_le-total :
    (a b : Bytes)
    → length a ≡ length b
    → a ≢ b
    → ((name_le a b ≡ true) × (name_le b a ≡ false))
      ⊎ ((name_le a b ≡ false) × (name_le b a ≡ true))
unfolding name_le
name_le-total [] [] same other = absurd (other refl)
name_le-total [] (y ∷ b) same other = absurd (omega (arith, same))
name_le-total (x ∷ a) [] same other = absurd (omega (arith, same))
name_le-total (x ∷ a) (y ∷ b) same other = elim (Bool-cases (nat_beq x y)) [
  | inl e ↦
      let xy : x ≡ y = (nat_beq_iff x y).0 e in
      let l : length a ≡ length b = omega (arith, same) in
      elim (name_le-total a b l (λ ab. other (ap (λ n. n ∷ a) xy ∙ ap (λ t. y ∷ t) ab))) [
        | inl (p, q) ↦ inl (ground (arith, p, e), ground (arith, q, e))
        | inr (p, q) ↦ inr (ground (arith, p, e), ground (arith, q, e))
      ]
  | inr e ↦ elim (Bool-cases (ltb x y)) [
    | inl f ↦ inl (ground (arith, f), ground (arith, f, e))
    | inr f ↦ inr (ground (arith, f, e), ground (arith, f, e))
  ]
]

-- The sender and this node are masters with one epoch.
pub record Collides (s : ℕ) (c : Cluster) : Type 0 where
  pub same_epoch : (c.heap s).config_epoch ≡ (c.heap c.myself).config_epoch
  pub sender_master : (c.heap s).flags.master ≡ true
  pub own_master : (c.heap c.myself).flags.master ≡ true

-- This node has taken the next epoch.
abbrev pub Moved : Cluster → Cluster → Type 0
Moved c c' =
    ((c'.heap c'.myself).config_epoch ≡ c.current_epoch + 1)
    × (c'.current_epoch ≡ c.current_epoch + 1)

collides-tests :
    (n m : ℕ) (a b : Bool)
    → n ≡ m
    → a ≡ true
    → b ≡ true
    → not (nat_beq n m) || not a || not b ≡ false
collides-tests n m a b e p q = ground (arith, e, p, q)

-- A node whose name is not smaller stays as it is, and the other one moves.
stays :
    (s : ℕ) (c : Cluster)
    → Collides s c
    → name_le (c.heap s).name (c.heap c.myself).name ≡ true
    → handle_epoch_collision s c ≡ c
unfolding handle_epoch_collision
stays s c h le =
    rw (collides-tests _ _ _ _ h.same_epoch h.sender_master h.own_master, handle_epoch_collision)
      (rw le refl)

moves :
    (s : ℕ) (c : Cluster)
    → Collides s c
    → HasNext c.current_epoch
    → name_le (c.heap s).name (c.heap c.myself).name ≡ false
    → Moved c (handle_epoch_collision s c)
unfolding handle_epoch_collision take_new_epoch
moves s c h next gt =
    let self : nat_beq c.myself c.myself ≡ true = ground arith in
    rw (collides-tests _ _ _ _ h.same_epoch h.sender_master h.own_master, handle_epoch_collision)
      (rw gt (rw (self, take_new_epoch) (omega (arith, next), omega (arith, next))))

-- Two masters with one epoch that hear of each other, under different names of one length: exactly
-- one of them takes its next epoch, and the other one changes nothing. Neither has the last epoch of
-- a `uint64_t`.
pub handle_epoch_collision-one :
    (s t : ℕ) (c d : Cluster)
    → Collides s c
    → Collides t d
    → (c.heap s).name ≡ (d.heap d.myself).name
    → (d.heap t).name ≡ (c.heap c.myself).name
    → length (c.heap s).name ≡ length (d.heap t).name
    → (c.heap s).name ≢ (d.heap t).name
    → HasNext c.current_epoch
    → HasNext d.current_epoch
    → ((handle_epoch_collision s c ≡ c) × Moved d (handle_epoch_collision t d))
      ⊎ (Moved c (handle_epoch_collision s c) × (handle_epoch_collision t d ≡ d))
handle_epoch_collision-one s t c d h k there here_name same other next next' =
    elim (name_le-total (c.heap s).name (d.heap t).name same other) [
      | inl (p, q) ↦ inl (stays s c h (rw (← here_name) p), moves t d k next' (rw (← there) q))
      | inr (p, q) ↦ inr (moves s c h next (rw (← here_name) p), stays t d k (rw (← there) q))
    ]
