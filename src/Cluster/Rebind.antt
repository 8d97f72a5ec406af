-- ===== src/Cluster/Rebind.antt =====
-- examples/cluster.c: `clusterUpdateSlotsConfigWith`, by which a node's claims of slots with a newer
-- epoch are taken over. `keys` says in which slots this node has keys.
pub mod Slot
pub mod Loop
pub mod Owners
use weggli_enhance.Common.{
  ℕ, ◌+◌, Bool, true, false, not, ◌&&◌, ◌||◌, List, [], ◌∷◌, ◌++◌, Option, none, some, nat_beq, ltb,
  if◌then◌else◌, Outcome, done, panic, ◌>>=◌,
}
use weggli_enhance.Cluster.State.{
  Node, Cluster, Event, deleted_keys, put_node, write, emit, points_to, save_update_and_sync,
  node_is_master,
}
use weggli_enhance.Cluster.Table.{all_slots, add_slot, del_slot}
use weggli_enhance.Cluster.Roles.{set_master}

-- `p == q` of two pointers that may be null.
abbrev pub same_pointer : Option ℕ → Option ℕ → Bool
same_pointer none none = true
same_pointer none (some q) = false
same_pointer (some p) none = false
same_pointer (some p) (some q) = nat_beq p q

-- The variables of the loop: is there a new master, and the dirty slots.
pub record Rebinding : Type 0 where
  pub cluster : Cluster
  pub newmaster : Bool
  pub dirty_slots : List ℕ

-- The slot has no owner, or one whose epoch is smaller than the sender's.
unfoldable pub is_outdated : ℕ → ℕ → Cluster → Bool
is_outdated epoch j c = elim (c.slots j) [
  | none ↦ true
  | some owner ↦ ltb (c.heap owner).config_epoch epoch
]

-- The slot `j`, whose owner was removed in `c1`, goes to the sender.
unfoldable pub rebound : (ℕ → Bool) → ℕ → Option ℕ → ℕ → Rebinding → Cluster → Rebinding
unfolding add_slot
rebound keys sender curmaster j r c1 =
    let c = r.cluster in
    record {
      cluster = save_update_and_sync (add_slot sender j c1).0;
      newmaster = r.newmaster || same_pointer (c.slots j) curmaster;
      dirty_slots =
          if points_to (c.slots j) c.myself && keys j && not (nat_beq sender c.myself)
          then r.dirty_slots ++ j ∷ []
          else r.dirty_slots;
    }

unfoldable pub rebind_slot : (ℕ → Bool) → ℕ → Option ℕ → ℕ → Rebinding → Outcome Rebinding
unfolding del_slot rebound
rebind_slot keys sender curmaster j r = do
  (c1, deleted) ← del_slot j r.cluster
  done (rebound keys sender curmaster j r c1)

-- The loop over the slots; `claimed` is the bitmap of the message.
unfoldable pub rebind_slots :
    (ℕ → Bool) → ℕ → ℕ → (ℕ → Bool) → Option ℕ → List ℕ → Rebinding → Outcome Rebinding
unfolding rebind_slot is_outdated
rebind_slots keys sender epoch claimed curmaster [] r = done r
rebind_slots keys sender epoch claimed curmaster (j ∷ js) r =
    let c = r.cluster in
    let skips =
      not (claimed j)
      || points_to (c.slots j) sender
      || not (same_pointer (c.importing_slots_from j) none)
      || not (is_outdated epoch j c) in
    elim skips [
      | true ↦ rebind_slots keys sender epoch claimed curmaster js r
      | false ↦ do
        r' ← rebind_slot keys sender curmaster j r
        rebind_slots keys sender epoch claimed curmaster js r'
    ]

unfoldable pub delete_dirty : List ℕ → Cluster → Cluster
delete_dirty [] c = c
delete_dirty (j ∷ js) c = delete_dirty js (emit (deleted_keys j) c)

-- What follows the loop. The master whose slots are asked for may be null, which panics.
unfoldable pub finish_rebind : Bool → ℕ → Option ℕ → Rebinding → Outcome Cluster
unfolding set_master delete_dirty
finish_rebind paused sender none r =
    if r.newmaster then panic else done (delete_dirty r.dirty_slots r.cluster)
finish_rebind paused sender (some m) r =
    elim (r.newmaster && nat_beq (r.cluster.heap m).numslots 0) [
      | false ↦ done (delete_dirty r.dirty_slots r.cluster)
      | true ↦ do c ← set_master paused sender r.cluster; done (save_update_and_sync c)
    ]

unfoldable pub update_slots_config_with :
    (ℕ → Bool) → Bool → ℕ → ℕ → (ℕ → Bool) → Cluster → Outcome Cluster
unfolding rebind_slots finish_rebind
update_slots_config_with keys paused sender epoch claimed c =
    let me = c.heap c.myself in
    let curmaster = if node_is_master me then some c.myself else me.slaveof in
    elim (nat_beq sender c.myself) [
      | true ↦ done c
      | false ↦ do
        r ←
            rebind_slots keys sender epoch claimed curmaster all_slots
              (record { cluster = c; newmaster = false; dirty_slots = [] })
        finish_rebind paused sender curmaster r
    ]
