-- ===== src/Cluster/Quiet/Slots.antt =====
-- examples/cluster.c: the operations on slots and roles, the removal of a node, the epochs and the
-- votes.
use weggli_enhance.Common.{
  ℕ, ◌≡◌, refl, ◌∙◌, Bool, false, not, ◌&&◌, ◌||◌, List, [], ◌∷◌, Option, none, some, nat_beq,
  if◌then◌else◌, Outcome, done, panic, Bool-cases, Option-cases, inl, inr,
}
use weggli_enhance.Cluster.State.{
  Cluster, deleted_keys, replicate, emit, put_node, write, points_to, node_is_master,
  save_update_and_sync,
}
use weggli_enhance.Cluster.Reports.{Settings, node_add_slave}
use weggli_enhance.Cluster.Table.{
  node_set_slot_bit, node_clear_slot_bit, add_slot, del_slot, del_node_slots_from, del_node_slots,
  close_all_slots, all_slots,
}
use weggli_enhance.Cluster.Nodes.{release_slots, forget_reports, del_node}
use weggli_enhance.Cluster.Roles.{leave_role, follow, set_master}
use weggli_enhance.Cluster.Rebind.{
  same_pointer, is_outdated, Rebinding, rebound, rebind_slot, rebind_slots, delete_dirty,
  finish_rebind, update_slots_config_with,
}
use weggli_enhance.Cluster.Quiet.{
  frame, sent_votes, frame-emit, frame-record, Ends, Ends-bind, Ends-if, Quietly, Quietly-from,
  Quietly-bind,
}
use weggli_enhance.Cluster.Quiet.Nodes.{
  frame-node_remove_slave, frame-node_add_slave, frame-free_node, frame-forget_reports,
  frame-reset_manual_failover,
}

Ends-from :
    (c1 c : Cluster) (o : Outcome Rebinding)
    → frame c1 ≡ frame c
    → Ends (λ r. frame r.cluster ≡ frame c1) o
    → Ends (λ r. frame r.cluster ≡ frame c) o
Ends-from c1 c (done r) e q = q ∙ e
Ends-from c1 c panic e q = tt

-- The cluster of a result with a second value.
abbrev pub QuietlyWith {ℓ} : {B : Type ℓ} → Cluster → Outcome (Cluster × B) → Type 0
QuietlyWith c = Ends λ r. frame r.0 ≡ frame c

abbrev fst_of {ℓ} : {B : Type ℓ} → Cluster × B → Cluster
fst_of r = r.0

frame-node_set_slot_bit : (p j : ℕ) (c : Cluster) → frame (node_set_slot_bit p j c).0 ≡ frame c
unfolding node_set_slot_bit
frame-node_set_slot_bit p j c = elim (Bool-cases ((c.heap p).slots j)) [
  | inl on ↦ rw (on, node_set_slot_bit) (frame-record _ c refl)
  | inr off ↦ rw (off, node_set_slot_bit) (frame-record _ c refl)
]

pub frame-add_slot : (p j : ℕ) (c : Cluster) → frame (add_slot p j c).0 ≡ frame c
unfolding add_slot
frame-add_slot p j c = elim (Option-cases (c.slots j)) [
  | inr (q, e) ↦ rw (e, add_slot) refl
  | inl e ↦
      rw (e, add_slot)
        (frame-record _ (node_set_slot_bit p j c).0 refl ∙ frame-node_set_slot_bit p j c)
]

pub frame-del_slot : (j : ℕ) (c : Cluster) → QuietlyWith c (del_slot j c)
unfolding del_slot node_clear_slot_bit
frame-del_slot j c = elim (Option-cases (c.slots j)) [
  | inl e ↦ rw (e, del_slot) refl
  | inr (p, e) ↦ elim (Bool-cases ((c.heap p).slots j)) [
    | inl on ↦ rw (e, del_slot) (rw (on, node_clear_slot_bit) (frame-record _ c refl))
    | inr off ↦ rw (e, del_slot) (rw (off, node_clear_slot_bit) tt)
  ]
]

frame-del_node_slots_from :
    (p : ℕ) (js : List ℕ) (c : Cluster) → Quietly c (del_node_slots_from p js c)
unfolding del_node_slots_from
frame-del_node_slots_from p [] c = refl
frame-del_node_slots_from p (j ∷ js) c = elim (Bool-cases ((c.heap p).slots j)) [
  | inr off ↦ rw (off, del_node_slots_from) (frame-del_node_slots_from p js c)
  | inl on ↦
      rw (on, del_node_slots_from)
        (Quietly-bind fst_of c (del_slot j c) _ (frame-del_slot j c)
          λ r. frame-del_node_slots_from p js r.0)
]

pub frame-del_node_slots : (p : ℕ) (c : Cluster) → QuietlyWith c (del_node_slots p c)
unfolding del_node_slots
frame-del_node_slots p c =
    Ends-bind (λ c'. frame c' ≡ frame c) _ (del_node_slots_from p all_slots c) _
      (frame-del_node_slots_from p all_slots c) (λ c' e. e)

frame-release_slots : (p : ℕ) (js : List ℕ) (c : Cluster) → Quietly c (release_slots p js c)
unfolding release_slots
frame-release_slots p [] c = refl
frame-release_slots p (j ∷ js) c =
    let c1 = record c {
      importing_slots_from =
          if points_to (c.importing_slots_from j) p
          then write j none c.importing_slots_from
          else c.importing_slots_from;
      migrating_slots_to =
          if points_to (c.migrating_slots_to j) p
          then write j none c.migrating_slots_to
          else c.migrating_slots_to;
    } in
    elim (Bool-cases (points_to (c.slots j) p)) [
      | inr e ↦
          rw (e, release_slots)
            (Quietly-from c1 c _ (frame-record c1 c refl) (frame-release_slots p js c1))
      | inl e ↦
          rw (e, release_slots)
            (Quietly-from c1 c _ (frame-record c1 c refl) (
              Quietly-bind fst_of c1 (del_slot j c1) _ (frame-del_slot j c1)
                λ r. frame-release_slots p js r.0))
    ]

pub frame-del_node : (st : Settings) (now p : ℕ) (c : Cluster) → Quietly c (del_node st now p c)
unfolding del_node
frame-del_node st now p c =
    Quietly-bind (λ c'. c') c (release_slots p all_slots c) _ (frame-release_slots p all_slots c)
      λ c1.
        Quietly-from (forget_reports st now p c1.nodes c1) c1 _
          (frame-forget_reports st now p c1.nodes c1)
          (frame-free_node p (forget_reports st now p c1.nodes c1))

frame-close_all_slots : (c : Cluster) → frame (close_all_slots c) ≡ frame c
unfolding close_all_slots
frame-close_all_slots c = frame-record _ c refl

frame-leave_role : (c : Cluster) → frame (leave_role c) ≡ frame c
unfolding leave_role close_all_slots
frame-leave_role c = elim (Bool-cases (node_is_master (c.heap c.myself))) [
  | inl e ↦ rw (e, leave_role) (frame-record _ c refl)
  | inr e ↦ elim (Option-cases (c.heap c.myself).slaveof) [
    | inl f ↦ rw (e, leave_role) (rw f refl)
    | inr (m, f) ↦ rw (e, leave_role) (rw f (frame-node_remove_slave m c.myself c))
  ]
]

frame-follow : (paused : Bool) (p : ℕ) (c : Cluster) → frame (follow paused p c) ≡ frame c
unfolding follow sent_votes
frame-follow paused p c =
    let c1 = put_node c.myself (record (c.heap c.myself) { slaveof = some p }) c in
    let c2 = (node_add_slave p c1.myself c1).0 in
    frame-reset_manual_failover paused (emit (replicate (c2.heap p).ip (c2.heap p).port) c2)
    ∙ frame-emit (replicate (c2.heap p).ip (c2.heap p).port) c2 refl
    ∙ frame-node_add_slave p c1.myself c1
    ∙ frame-record c1 c refl

frame-set_master : (paused : Bool) (p : ℕ) (c : Cluster) → Quietly c (set_master paused p c)
unfolding set_master
frame-set_master paused p c =
    Ends-if (λ c'. frame c' ≡ frame c)
      (nat_beq p c.myself || not (nat_beq (c.heap c.myself).numslots 0)) panic
      (done (follow paused p (leave_role c))) tt
      (frame-follow paused p (leave_role c) ∙ frame-leave_role c)

frame-delete_dirty : (js : List ℕ) (c : Cluster) → frame (delete_dirty js c) ≡ frame c
unfolding delete_dirty sent_votes
frame-delete_dirty [] c = refl
frame-delete_dirty (j ∷ js) c =
    frame-delete_dirty js (emit (deleted_keys j) c) ∙ frame-emit (deleted_keys j) c refl

frame-rebind_slot :
    (keys : ℕ → Bool) (sender : ℕ) (cur : Option ℕ) (j : ℕ) (r : Rebinding)
    → Ends (λ r'. frame r'.cluster ≡ frame r.cluster) (rebind_slot keys sender cur j r)
unfolding rebind_slot rebound
frame-rebind_slot keys sender cur j r =
    Ends-bind (λ (d : Cluster × Bool). frame d.0 ≡ frame r.cluster)
      (λ (r' : Rebinding). frame r'.cluster ≡ frame r.cluster) (del_slot j r.cluster) _
      (frame-del_slot j r.cluster)
      λ d e.
        frame-record (save_update_and_sync (add_slot sender j d.0).0) (add_slot sender j d.0).0 refl
        ∙ frame-add_slot sender j d.0
        ∙ e

frame-rebind_slots :
    (keys : ℕ → Bool) (sender epoch : ℕ) (claimed : ℕ → Bool) (cur : Option ℕ) (js : List ℕ)
    (r : Rebinding)
    → Ends
        (λ r'. frame r'.cluster ≡ frame r.cluster)
        (rebind_slots keys sender epoch claimed cur js r)
unfolding rebind_slots
frame-rebind_slots keys sender epoch claimed cur [] r = refl
frame-rebind_slots keys sender epoch claimed cur (j ∷ js) r =
    let skips =
      not (claimed j)
      || points_to (r.cluster.slots j) sender
      || not (same_pointer (r.cluster.importing_slots_from j) none)
      || not (is_outdated epoch j r.cluster) in
    elim (Bool-cases skips) [
      | inl e ↦ rw (e, rebind_slots) (frame-rebind_slots keys sender epoch claimed cur js r)
      | inr e ↦
          rw (e, rebind_slots)
            (Ends-bind (λ (a : Rebinding). frame a.cluster ≡ frame r.cluster)
              (λ (b : Rebinding). frame b.cluster ≡ frame r.cluster)
              (rebind_slot keys sender cur j r) _ (frame-rebind_slot keys sender cur j r)
              λ a p.
                Ends-from a.cluster r.cluster _ p
                  (frame-rebind_slots keys sender epoch claimed cur js a))
    ]

frame-finish_rebind :
    (paused : Bool) (sender : ℕ) (cur : Option ℕ) (r : Rebinding)
    → Quietly r.cluster (finish_rebind paused sender cur r)
unfolding finish_rebind
frame-finish_rebind paused sender none r =
    Ends-if (λ c'. frame c' ≡ frame r.cluster) r.newmaster panic _ tt
      (frame-delete_dirty r.dirty_slots r.cluster)
frame-finish_rebind paused sender (some m) r =
    elim (Bool-cases (r.newmaster && nat_beq (r.cluster.heap m).numslots 0)) [
      | inr e ↦ rw (e, finish_rebind) (frame-delete_dirty r.dirty_slots r.cluster)
      | inl e ↦
          rw (e, finish_rebind)
            (Quietly-bind (λ c'. c') r.cluster (set_master paused sender r.cluster) _
              (frame-set_master paused sender r.cluster)
              (λ c'. frame-record (save_update_and_sync c') c' refl))
    ]

pub frame-update_slots_config_with :
    (keys : ℕ → Bool) (paused : Bool) (sender epoch : ℕ) (claimed : ℕ → Bool) (c : Cluster)
    → Quietly c (update_slots_config_with keys paused sender epoch claimed c)
unfolding update_slots_config_with
frame-update_slots_config_with keys paused sender epoch claimed c =
    let me = c.heap c.myself in
    let cur = if node_is_master me then some c.myself else me.slaveof in
    elim (Bool-cases (nat_beq sender c.myself)) [
      | inl e ↦ rw (e, update_slots_config_with) refl
      | inr e ↦
          rw (e, update_slots_config_with)
            (Quietly-bind (λ (r : Rebinding). r.cluster) c
              (rebind_slots keys sender epoch claimed cur all_slots
                (record { cluster = c; newmaster = false; dirty_slots = [] }))
              _
              (frame-rebind_slots keys sender epoch claimed cur all_slots
                (record { cluster = c; newmaster = false; dirty_slots = [] }))
              (λ r. frame-finish_rebind paused sender cur r))
    ]
