-- ===== src/Cluster/Table.antt =====
-- examples/cluster.c: the table of the slots, and the slots of each node. A failed assertion and a
-- null pointer that is followed are a panic.
pub mod Agreement
use weggli_enhance.Common.{
  ℕ, zero, suc, ◌+◌, ◌-◌, Bool, true, false, not, ◌&&◌, ◌||◌, List, [], ◌∷◌, ◌++◌, Option, none,
  some, nat_beq, if◌then◌else◌, length, any, Outcome, done, panic, ◌>>=◌, leb, ltb,
}
use weggli_enhance.Text.{Bytes}
use weggli_enhance.Cluster.State.{
  Node, Cluster, Flags, cluster_slots, put_node, write, node_is_slave,
}

-- Some node that is no slave has a slave: their sum is not zero.
unfoldable pub masters_have_slaves : Cluster → Bool
masters_have_slaves c =
    any c.nodes
      λ e. let n = c.heap e.1 in not (node_is_slave n) && not (nat_beq (length n.slaves) 0)

-- The old value of the bit, and the state with the bit set.
unfoldable pub node_set_slot_bit : ℕ → ℕ → Cluster → Cluster × Bool
unfolding masters_have_slaves
node_set_slot_bit p slot c =
    let n = c.heap p in
    let old = n.slots slot in
    let set = write slot true n.slots in
    if old then (put_node p (record n { slots = set }) c, true) else (
      put_node p
          (record n {
            slots = set;
            numslots = n.numslots + 1;
            flags = record n.flags {
              migrate_to =
                  n.flags.migrate_to || nat_beq (n.numslots + 1) 1 && masters_have_slaves c;
            };
          })
          c,
      false,
    )

unfoldable pub node_clear_slot_bit : ℕ → ℕ → Cluster → Cluster × Bool
node_clear_slot_bit p slot c =
    let n = c.heap p in
    let old = n.slots slot in
    (
      put_node p
          (record n {
            slots = write slot false n.slots;
            numslots = if old then n.numslots - 1 else n.numslots;
          })
          c,
      old,
    )

-- `clusterAddSlot`; `false` is `C_ERR`.
unfoldable pub add_slot : ℕ → ℕ → Cluster → Cluster × Bool
unfolding node_set_slot_bit
add_slot p slot c = elim (c.slots slot) [
  | some q ↦ (c, false)
  | none ↦
      let c' = (node_set_slot_bit p slot c).0 in
      (record c' { slots = write slot (some p) c'.slots }, true)
]

-- `clusterDelSlot`; `false` is `C_ERR`. The bit of the owner is asserted.
unfoldable pub del_slot : ℕ → Cluster → Outcome (Cluster × Bool)
unfolding node_clear_slot_bit
del_slot slot c = elim (c.slots slot) [
  | none ↦ done (c, false)
  | some p ↦
      let (c', old) = node_clear_slot_bit p slot c in
      if old then done (record c' { slots = write slot none c'.slots }, true) else panic
]

-- The numbers from `start` on, and those of all slots.
unfoldable pub slots_from : ℕ → ℕ → List ℕ
slots_from start zero = []
slots_from start (suc n) = start ∷ slots_from (suc start) n

unfoldable pub all_slots : List ℕ
unfolding slots_from
all_slots = slots_from 0 cluster_slots

-- The loop of `clusterDelNodeSlots` over the slots.
unfoldable pub del_node_slots_from : ℕ → List ℕ → Cluster → Outcome Cluster
unfolding del_slot
del_node_slots_from p [] c = done c
del_node_slots_from p (j ∷ js) c = elim ((c.heap p).slots j) [
  | false ↦ del_node_slots_from p js c
  | true ↦ do (c', deleted) ← del_slot j c; del_node_slots_from p js c'
]

-- `deleted` counts every slot.
unfoldable pub del_node_slots : ℕ → Cluster → Outcome (Cluster × ℕ)
unfolding del_node_slots_from all_slots
del_node_slots p c = do c' ← del_node_slots_from p all_slots c; done (c', cluster_slots)

unfoldable pub close_all_slots : Cluster → Cluster
close_all_slots c = record c { migrating_slots_to = λ j. none; importing_slots_from = λ j. none }
