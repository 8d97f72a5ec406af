-- ===== src/Cluster/Takeover/Master.antt =====
-- examples/cluster.c: `clusterFailoverReplaceYourMaster` as a whole.
use weggli_enhance.Common.{
  ℕ, ◌+◌, ◌<◌, ◌≡◌, ◌≢◌, refl, sym, ap, ◌∙◌, Bool, true, false, not, ◌&&◌, ◌||◌, Option, none, some,
  arith, nat_beq, ltb, if◌then◌else◌, done, Bool-cases, Option-cases, inl, inr,
}
use weggli_enhance.Cluster.State.{
  unpaused_clients, Node, Cluster, stopped_replication, saved_config, broadcast_pong, cluster_slots,
  put_node, emit, node_is_master, save_and_update,
}
use weggli_enhance.Cluster.Reports.{Settings, node_remove_slave, remove_slave}
use weggli_enhance.Cluster.Table.{all_slots}
use weggli_enhance.Cluster.Table.Agreement.{AgreesTable, at_put}
use weggli_enhance.Cluster.Failing.{needed_quorum}
use weggli_enhance.Cluster.Roles.{set_node_as_master, reset_manual_failover}
use weggli_enhance.Cluster.Roles.Table.{
  KeepsTable, KeepsTable-refl, KeepsTable-trans, KeepsTable-AgreesTable, KeepsTable-put,
  KeepsTable-remove, KeepsTable-reset,
}
use weggli_enhance.Cluster.Health.{
  is_uncovered, count_masters, rejoin_delay, change_state, evaluate_state, update_state,
  writable_delay,
}
use weggli_enhance.Cluster.Failover.{Surroundings, claim_slots, replace_your_master}
use weggli_enhance.Cluster.Quiet.{if-same}
use weggli_enhance.Cluster.Takeover.{claim_slots-Claimed}

-- The nodes, the table and this node's identity.
pub record View : Type 0 where
  pub heap : ℕ → Node
  pub slots : ℕ → Option ℕ
  pub myself : ℕ

abbrev pub view : Cluster → View
view c = record { heap = c.heap; slots = c.slots; myself = c.myself }

view-update_state : (st : Settings) (now : ℕ) (c : Cluster) → view (update_state st now c) ≡ view c
unfolding update_state evaluate_state change_state
view-update_state st now c =
    let c1 = record c {
      todo = record c.todo { update_state = false };
      health = record c.health {
        first_call_time =
            if nat_beq c.health.first_call_time 0 then now else c.health.first_call_time;
      };
    } in
    let waits =
      node_is_master (c1.heap c1.myself)
      && not c1.is_ok
      && ltb now (c1.health.first_call_time + writable_delay) in
    let covered = not (st.require_full_coverage && is_uncovered c1 all_slots) in
    let (size, reachable) = count_masters c1 c1.nodes in
    let c2 = record c1 { size = size } in
    let c3 = record c2 { health = record c2.health { among_minority_time = now } } in
    if-same view waits c1 (evaluate_state st now c1) _ refl (
      if-same view (ltb reachable (needed_quorum size)) (change_state st now false c3)
        (change_state st now covered c2) _ (view-change_state st now false c3)
        (view-change_state st now covered c2))
  where
    view-change_state :
        (st : Settings) (now : ℕ) (new : Bool) (c : Cluster)
        → view (change_state st now new c) ≡ view c
    view-change_state st now new c =
        let waits =
          new
          && node_is_master (c.heap c.myself)
          && ltb now (c.health.among_minority_time + rejoin_delay st) in
        if-same view ((if new then c.is_ok else not c.is_ok) || waits) c (record c { is_ok = new })
          _ refl refl

KeepsTable-view : (c c' : Cluster) → view c' ≡ view c → KeepsTable c c'
KeepsTable-view c c' e = record {
  slots = ap (λ (v : View). v.slots) e;
  myself = ap (λ (v : View). v.myself) e;
  bits = λ p. (ap (λ (v : View). (v.heap p).slots) e, ap (λ (v : View). (v.heap p).numslots) e);
}

-- The last part of the change: the flags and the master.
KeepsTable-promoted :
    (p : ℕ) (c : Cluster)
    → KeepsTable c (
        save_and_update (
          put_node p
            (record (c.heap p) {
              flags = record (c.heap p).flags { slave = false; master = true };
              slaveof = none;
            })
            c))
KeepsTable-promoted p c =
    let c1 =
      put_node p
        (record (c.heap p) {
          flags = record (c.heap p).flags { slave = false; master = true };
          slaveof = none;
        })
        c in
    KeepsTable-trans c c1 (save_and_update c1) (KeepsTable-put c p _ refl refl)
      (KeepsTable-view c1 (save_and_update c1) refl)

KeepsTable-set_node_as_master : (p : ℕ) (c : Cluster) → KeepsTable c (set_node_as_master p c)
unfolding set_node_as_master
KeepsTable-set_node_as_master p c = elim (Bool-cases (node_is_master (c.heap p))) [
  | inl e ↦ rw (e, set_node_as_master) (KeepsTable-refl c)
  | inr e ↦ elim (Option-cases (c.heap p).slaveof) [
    | inl f ↦ rw (e, set_node_as_master) (rw f (KeepsTable-promoted p c))
    | inr (m, f) ↦
        let c1 = (node_remove_slave m p c).0 in
        let n = c1.heap p in
        let c2 =
          put_node p
            (record n {
              flags = record n.flags {
                migrate_to = n.flags.migrate_to || not (nat_beq p c.myself);
              };
            })
            c1 in
        rw (e, set_node_as_master)
          (rw f (
            KeepsTable-trans c c1 _ (KeepsTable-remove m p c) (
              KeepsTable-trans c1 c2 _ (KeepsTable-put c1 p _ refl refl)
                (KeepsTable-promoted p c2))))
  ]
]

remove-epoch :
    (m s p : ℕ) (c : Cluster)
    → ((node_remove_slave m s c).0.heap p).config_epoch ≡ (c.heap p).config_epoch
unfolding node_remove_slave
remove-epoch m s p c = elim (Bool-cases (remove_slave s (c.heap m).slaves).1) [
  | inl found ↦
      rw found (at_put (λ n k. k.config_epoch ≡ n.config_epoch) c.heap m _ (λ n. refl) refl p)
  | inr absent ↦ rw absent refl
]

-- The node is a master under its old epoch.
promoted-own :
    (p : ℕ) (c : Cluster)
    → (c.heap p).flags.master ≡ false
    → (((set_node_as_master p c).heap p).flags.master ≡ true)
      × (((set_node_as_master p c).heap p).config_epoch ≡ (c.heap p).config_epoch)
unfolding set_node_as_master
promoted-own p c e =
    let self : nat_beq p p ≡ true = ground arith in
    elim (Option-cases (c.heap p).slaveof) [
      | inl f ↦ rw (e, set_node_as_master) (rw f (rw self (refl, refl)))
      | inr (m, f) ↦ rw (e, set_node_as_master) (rw f (rw self (refl, remove-epoch m p p c)))
    ]

-- What follows the claims.
unfoldable finished : Settings → Surroundings → Cluster → Cluster
finished st env c =
    reset_manual_failover env.clients_paused
      (emit (broadcast_pong true) (emit saved_config (update_state st env.now c)))

KeepsTable-finished :
    (st : Settings) (env : Surroundings) (c : Cluster) → KeepsTable c (finished st env c)
unfolding finished
KeepsTable-finished st env c =
    let c1 = emit (broadcast_pong true) (emit saved_config (update_state st env.now c)) in
    KeepsTable-trans c c1 _ (KeepsTable-view c c1 (view-update_state st env.now c))
      (KeepsTable-reset env.clients_paused c1)

heap-finished :
    (st : Settings) (env : Surroundings) (c : Cluster) → (finished st env c).heap ≡ c.heap
unfolding finished reset_manual_failover
heap-finished st env c =
    let c1 = emit (broadcast_pong true) (emit saved_config (update_state st env.now c)) in
    if-same (λ (x : Cluster). x.heap) (not (nat_beq c1.manual.end 0) && env.clients_paused)
      (emit unpaused_clients c1) c1 _ refl refl
    ∙ ap (λ (v : View). v.heap) (view-update_state st env.now c)

replace-run :
    (st : Settings) (env : Surroundings) (c : Cluster) (m : ℕ) (c' : Cluster)
    → (c.heap c.myself).flags.master ≡ false
    → (c.heap c.myself).slaveof ≡ some m
    → claim_slots m all_slots (emit stopped_replication (set_node_as_master c.myself c)) ≡ done c'
    → replace_your_master st env c ≡ done (finished st env c')
unfolding replace_your_master finished
replace-run st env c m c' e f g = rw (e, replace_your_master) (rw f (rw g refl))

-- A slave of a known master, with a table that agrees with the bitmaps, takes its place without an
-- assertion that fails: it is a master under its epoch afterwards, with the slots of the old one; every
-- other slot keeps its owner, and the table agrees again.
pub replace_your_master-AgreesTable :
    (st : Settings) (env : Surroundings) (c : Cluster) (m : ℕ)
    → AgreesTable c
    → (c.heap c.myself).flags.master ≡ false
    → (c.heap c.myself).slaveof ≡ some m
    → (c' : Cluster) × (replace_your_master st env c ≡ done c')
      × AgreesTable c'
      × ((k : ℕ) → k < cluster_slots → c.slots k ≡ some m → c'.slots k ≡ some c.myself)
      × ((k : ℕ) → c.slots k ≢ some m → c'.slots k ≡ c.slots k)
      × ((c'.heap c.myself).flags.master ≡ true)
      × ((c'.heap c.myself).config_epoch ≡ (c.heap c.myself).config_epoch)
unfolding all_slots
replace_your_master-AgreesTable st env c m h e f =
    let c1 = set_node_as_master c.myself c in
    let c2 = emit stopped_replication c1 in
    let k2 =
      KeepsTable-trans c c1 c2 (KeepsTable-set_node_as_master c.myself c)
        (KeepsTable-view c1 c2 refl) in
    let (c3, g, claims) =
      claim_slots-Claimed m 0 cluster_slots c2 (KeepsTable-AgreesTable c c2 k2 h) (omega arith) in
    let c4 = finished st env c3 in
    let k4 = KeepsTable-finished st env c3 in
    let heaps = heap-finished st env c3 in
    let own = promoted-own c.myself c e in
    let before : (k : ℕ) → c2.slots k ≡ c.slots k = λ k. ap (λ (t : ℕ → Option ℕ). t k) k2.slots in
    let after : (k : ℕ) → c4.slots k ≡ c3.slots k = λ k. ap (λ (t : ℕ → Option ℕ). t k) k4.slots in
    (
      c4,
      replace-run st env c m c3 e f g,
      KeepsTable-AgreesTable c3 c4 k4 claims.agrees,
      λ k lt q.
          after k
          ∙ claims.taken k (omega arith) (omega (arith, lt)) (before k ∙ q)
          ∙ ap some k2.myself,
      λ k out. after k ∙ claims.kept k (λ le lt q. out (sym (before k) ∙ q)) ∙ before k,
      ap (λ (t : ℕ → Node). (t c.myself).flags.master) heaps ∙ (claims.marks c.myself).0 ∙ own.0,
      ap (λ (t : ℕ → Node). (t c.myself).config_epoch) heaps ∙ (claims.marks c.myself).1 ∙ own.1,
    )
