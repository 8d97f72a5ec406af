-- ===== src/Cluster/Takeover.antt =====
-- examples/cluster.c: the loop of `clusterFailoverReplaceYourMaster` over the slots.
pub mod Master
pub mod Election
use weggli_enhance.Common.{
  ℕ, zero, suc, ◌+◌, ◌<◌, ◌≤◌, ◌≡◌, ◌≢◌, refl, sym, subst, ap, ◌∙◌, Bool, true, false, not, ◌&&◌,
  ◌||◌, List, [], ◌∷◌, Option, none, some, some-injective, arith, nat_beq, nat_beq_iff, ltb,
  if◌then◌else◌, Outcome, done, panic, Bool-cases, Option-cases, ◌⊎◌, inl, inr, ◌↔◌, ◌>>=◌,
}
use weggli_enhance.Cluster.State.{
  Node, Cluster, Event, stopped_replication, saved_config, broadcast_pong, cluster_slots, put_node,
  emit, write, points_to, node_is_master,
}
use weggli_enhance.Cluster.Reports.{Settings}
use weggli_enhance.Cluster.Table.{add_slot, del_slot, slots_from, all_slots}
use weggli_enhance.Cluster.Table.Agreement.{
  AgreesTable, SetsSlot, add_slot-SetsSlot, del_slot-SetsSlot,
}
use weggli_enhance.Cluster.Roles.{set_node_as_master, reset_manual_failover}
use weggli_enhance.Cluster.Roles.Table.{
  KeepsTable, KeepsTable-refl, KeepsTable-trans, KeepsTable-AgreesTable,
}
use weggli_enhance.Cluster.Health.{update_state}
use weggli_enhance.Cluster.Failover.{Surroundings, claim_slots, replace_your_master}

-- The role and the epoch of a node.
abbrev pub Marked : Node → Node → Type 0
Marked n n' = (n'.flags.master ≡ n.flags.master) × (n'.config_epoch ≡ n.config_epoch)

-- The slots of `m` from `start` on are this node's, and all others have their owner.
pub record Claimed (m start n : ℕ) (c c' : Cluster) : Type 0 where
  pub agrees : AgreesTable c'
  pub myself : c'.myself ≡ c.myself
  pub marks : (p : ℕ) → Marked (c.heap p) (c'.heap p)
  pub taken : (k : ℕ) → start ≤ k → k < start + n → c.slots k ≡ some m → c'.slots k ≡ some c.myself
  pub kept : (k : ℕ) → (start ≤ k → k < start + n → c.slots k ≢ some m) → c'.slots k ≡ c.slots k

module _ (m : ℕ) where
  claim_slots-skip :
      (j : ℕ) (js : List ℕ) (c : Cluster)
      → (c.heap m).slots j ≡ false
      → claim_slots m (j ∷ js) c ≡ claim_slots m js c
  unfolding claim_slots
  claim_slots-skip j js c e = rw (e, claim_slots) refl

  claim_slots-take :
      (j : ℕ) (js : List ℕ) (c c1 : Cluster) (b : Bool)
      → (c.heap m).slots j ≡ true
      → del_slot j c ≡ done (c1, b)
      → claim_slots m (j ∷ js) c ≡ claim_slots m js (add_slot c1.myself j c1).0
  unfolding claim_slots
  claim_slots-take j js c c1 b e f = rw (e, claim_slots) (rw f refl)

  Claimed-skip :
      (start n : ℕ) (c c' : Cluster)
      → c.slots start ≢ some m
      → Claimed m (suc start) n c c'
      → Claimed m start (suc n) c c'
  Claimed-skip start n c c' other h = record {
    agrees = h.agrees;
    myself = h.myself;
    marks = h.marks;
    taken = λ k le lt e. elim (Bool-cases (nat_beq k start)) [
      | inl at ↦ absurd (other (subst (λ z. c.slots z ≡ some m) ((nat_beq_iff k start).0 at) e))
      | inr off ↦ h.taken k (ground (arith, le, off)) (omega (arith, lt)) e
    ];
    kept = λ k out. h.kept k (λ le lt. out (omega (arith, le)) (omega (arith, lt)));
  }

  Claimed-take :
      (start n : ℕ) (c c2 c' : Cluster)
      → c.slots start ≡ some m
      → c2.myself ≡ c.myself
      → c2.slots start ≡ some c.myself
      → ((k : ℕ) → nat_beq k start ≡ false → c2.slots k ≡ c.slots k)
      → ((p : ℕ) → Marked (c.heap p) (c2.heap p))
      → Claimed m (suc start) n c2 c'
      → Claimed m start (suc n) c c'
  Claimed-take start n c c2 c' owned me mine others marks h = record {
    agrees = h.agrees;
    myself = h.myself ∙ me;
    marks = λ p. ((h.marks p).0 ∙ (marks p).0, (h.marks p).1 ∙ (marks p).1);
    taken = λ k le lt e. elim (Bool-cases (nat_beq k start)) [
      | inl at ↦
          let same = (nat_beq_iff k start).0 at in
          h.kept k (λ le' lt'. absurd (omega (arith, same, le')))
          ∙ subst (λ z. c2.slots z ≡ some c.myself) (sym same) mine
      | inr off ↦
          h.taken k (ground (arith, le, off)) (omega (arith, lt)) (others k off ∙ e) ∙ ap some me
    ];
    kept = λ k out. elim (Bool-cases (nat_beq k start)) [
      | inl at ↦
          let same = (nat_beq_iff k start).0 at in
          absurd (
            out (omega (arith, same)) (omega (arith, same))
              (subst (λ z. c.slots z ≡ some m) (sym same) owned))
      | inr off ↦
          h.kept k (λ le lt e. out (omega (arith, le)) (omega (arith, lt)) (sym (others k off) ∙ e))
          ∙ others k off
    ];
  }

  pub claim_slots-Claimed :
      (start n : ℕ) (c : Cluster)
      → AgreesTable c
      → start + n ≤ cluster_slots
      → (c' : Cluster) × (claim_slots m (slots_from start n) c ≡ done c') × Claimed m start n c c'
  unfolding slots_from claim_slots
  claim_slots-Claimed start zero c h le = (
    c,
    refl,
    record {
      agrees = h;
      myself = refl;
      marks = λ p. (refl, refl);
      taken = λ k ge lt e. absurd (omega (arith, ge, lt));
      kept = λ k out. refl;
    },
  )
  claim_slots-Claimed start (suc n) c h le = elim (Bool-cases ((c.heap m).slots start)) [
    | inr off ↦
        let (c', e, rest) = claim_slots-Claimed (suc start) n c h (omega (arith, le)) in
        let other : c.slots start ≢ some m = λ q. ground (arith, (h.owner start m).0 q, off) in
        (
          c',
          claim_slots-skip start (slots_from (suc start) n) c off ∙ e,
          Claimed-skip start n c c' other rest,
        )
    | inl on ↦
        let owned : c.slots start ≡ some m = (h.owner start m).1 on in
        let (c1, f, s) = del_slot-SetsSlot c h start m (omega (arith, le)) owned in
        let self : nat_beq start start ≡ true = ground arith in
        let free : c1.slots start ≡ none =
          ap (λ (t : ℕ → Option ℕ). t start) s.slots ∙ rw self refl in
        let t = add_slot-SetsSlot c1 s.agrees start c1.myself (omega (arith, le)) free in
        let c2 = (add_slot c1.myself start c1).0 in
        let (c', e, rest) = claim_slots-Claimed (suc start) n c2 t.agrees (omega (arith, le)) in
        (
          c',
          claim_slots-take start (slots_from (suc start) n) c c1 true on f ∙ e,
          Claimed-take start n c c2 c' owned (t.myself ∙ s.myself)
              (ap (λ (u : ℕ → Option ℕ). u start) t.slots ∙ rw self (ap some s.myself))
              (λ k off.
                ap (λ (u : ℕ → Option ℕ). u k) t.slots
                ∙ rw off (ap (λ (u : ℕ → Option ℕ). u k) s.slots ∙ rw off refl))
              (λ p. (t.masters p ∙ s.masters p, t.epochs p ∙ s.epochs p)) rest,
        )
  ]
