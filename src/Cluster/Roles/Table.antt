-- ===== src/Cluster/Roles/Table.antt =====
-- examples/cluster.c: changes of roles, and the table of the slots.
use weggli_enhance.Common.{
  ℕ, ◌≡◌, refl, sym, ap, ◌∙◌, Bool, false, not, ◌&&◌, Option, some, nat_beq, done, Bool-cases,
  Option-cases, inl, inr,
}
use weggli_enhance.Cluster.State.{
  Node, Cluster, replicate, cluster_slots, put_node, emit, node_is_master,
}
use weggli_enhance.Cluster.Reports.{remove_slave, node_remove_slave, node_add_slave, has_slave}
use weggli_enhance.Cluster.Table.{close_all_slots}
use weggli_enhance.Cluster.Table.Agreement.{AgreesTable, at_put, count_set}
use weggli_enhance.Cluster.Roles.{reset_manual_failover, leave_role, follow, set_master}

-- The table, the slots of every node and their numbers are the same.
pub record KeepsTable (c c' : Cluster) : Type 0 where
  pub slots : c'.slots ≡ c.slots
  pub myself : c'.myself ≡ c.myself
  pub bits :
      (p : ℕ)
      → ((c'.heap p).slots ≡ (c.heap p).slots) × ((c'.heap p).numslots ≡ (c.heap p).numslots)

pub KeepsTable-refl : (c : Cluster) → KeepsTable c c
KeepsTable-refl c = record { slots = refl; myself = refl; bits = λ p. (refl, refl) }

pub KeepsTable-trans : (a b c : Cluster) → KeepsTable a b → KeepsTable b c → KeepsTable a c
KeepsTable-trans a b c h k = record {
  slots = k.slots ∙ h.slots;
  myself = k.myself ∙ h.myself;
  bits = λ p. ((k.bits p).0 ∙ (h.bits p).0, (k.bits p).1 ∙ (h.bits p).1);
}

pub KeepsTable-AgreesTable : (c c' : Cluster) → KeepsTable c c' → AgreesTable c → AgreesTable c'
KeepsTable-AgreesTable c c' h a = record {
  owner = λ j p. (
    λ e.
        ap (λ (s : ℕ → Bool). s j) (h.bits p).0
        ∙ (a.owner j p).0 (sym (ap (λ (t : ℕ → Option ℕ). t j) h.slots) ∙ e),
    λ e.
        ap (λ (t : ℕ → Option ℕ). t j) h.slots
        ∙ (a.owner j p).1 (sym (ap (λ (s : ℕ → Bool). s j) (h.bits p).0) ∙ e),
  );
  counted =
      λ p. (h.bits p).1 ∙ (a.counted p ∙ sym (ap (λ s. count_set s cluster_slots) (h.bits p).0));
}

pub KeepsTable-put :
    (c : Cluster) (p : ℕ) (m : Node)
    → m.slots ≡ (c.heap p).slots
    → m.numslots ≡ (c.heap p).numslots
    → KeepsTable c (put_node p m c)
KeepsTable-put c p m e f = record {
  slots = refl;
  myself = refl;
  bits =
      at_put (λ n k. (k.slots ≡ n.slots) × (k.numslots ≡ n.numslots)) c.heap p m (λ n. (refl, refl))
        (e, f);
}

pub KeepsTable-remove : (m s : ℕ) (c : Cluster) → KeepsTable c (node_remove_slave m s c).0
unfolding node_remove_slave
KeepsTable-remove m s c = elim (Bool-cases (remove_slave s (c.heap m).slaves).1) [
  | inl found ↦ rw found (KeepsTable-put c m _ refl refl)
  | inr absent ↦ rw absent (KeepsTable-refl c)
]

KeepsTable-add : (m s : ℕ) (c : Cluster) → KeepsTable c (node_add_slave m s c).0
unfolding node_add_slave
KeepsTable-add m s c = elim (Bool-cases (has_slave s (c.heap m).slaves)) [
  | inl known ↦ rw known (KeepsTable-refl c)
  | inr new ↦ rw new (KeepsTable-put c m _ refl refl)
]

pub KeepsTable-reset : (paused : Bool) (c : Cluster) → KeepsTable c (reset_manual_failover paused c)
unfolding reset_manual_failover
KeepsTable-reset paused c = elim (Bool-cases (not (nat_beq c.manual.end 0) && paused)) [
  | inl wakes ↦ rw wakes (record { slots = refl; myself = refl; bits = λ p. (refl, refl) })
  | inr quiet ↦ rw quiet (record { slots = refl; myself = refl; bits = λ p. (refl, refl) })
]

KeepsTable-leave : (c : Cluster) → KeepsTable c (leave_role c)
unfolding leave_role close_all_slots
KeepsTable-leave c = elim (Bool-cases (node_is_master (c.heap c.myself))) [
  | inl master ↦
      rw master (record {
        slots = refl;
        myself = refl;
        bits = (KeepsTable-put c c.myself _ refl refl).bits;
      })
  | inr slave ↦ rw slave (elim (Option-cases (c.heap c.myself).slaveof) [
    | inl free ↦ rw free (KeepsTable-refl c)
    | inr (m, owned) ↦ rw owned (KeepsTable-remove m c.myself c)
  ])
]

KeepsTable-follow : (paused : Bool) (p : ℕ) (c : Cluster) → KeepsTable c (follow paused p c)
unfolding follow
KeepsTable-follow paused p c =
    let c1 = put_node c.myself (record (c.heap c.myself) { slaveof = some p }) c in
    let c2 = (node_add_slave p c1.myself c1).0 in
    let k1 = KeepsTable-put c c.myself (record (c.heap c.myself) { slaveof = some p }) refl refl in
    let k2 = KeepsTable-add p c1.myself c1 in
    let c3 = emit (replicate (c2.heap p).ip (c2.heap p).port) c2 in
    let k3 : KeepsTable c2 c3 = record { slots = refl; myself = refl; bits = λ q. (refl, refl) } in
    KeepsTable-trans c c1 _ k1
      (KeepsTable-trans c1 c2 _ k2 (KeepsTable-trans c2 c3 _ k3 (KeepsTable-reset paused c3)))

-- A node without slots becomes a slave of another, and no slot changes.
pub set_master-KeepsTable :
    (paused : Bool) (p : ℕ) (c : Cluster)
    → nat_beq p c.myself ≡ false
    → (c.heap c.myself).numslots ≡ 0
    → (c' : Cluster) × (set_master paused p c ≡ done c') × KeepsTable c c'
unfolding set_master
set_master-KeepsTable paused p c other empty = (
  follow paused p (leave_role c),
  rw (other, empty) refl,
  KeepsTable-trans c (leave_role c) _ (KeepsTable-leave c)
      (KeepsTable-follow paused p (leave_role c)),
)
