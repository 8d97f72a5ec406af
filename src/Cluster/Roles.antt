-- ===== src/Cluster/Roles.antt =====
-- examples/cluster.c: how a node becomes a master or a slave.
pub mod Table
use weggli_enhance.Common.{
  ℕ, ◌+◌, Bool, true, false, not, ◌&&◌, ◌||◌, List, Option, none, some, nat_beq, if◌then◌else◌,
  Outcome, done, panic, ◌>>=◌,
}
use weggli_enhance.Cluster.State.{
  Flags, Node, Cluster, ManualFailover, Event, unpaused_clients, replicate, put_node, write, emit,
  save_and_update, node_is_master,
}
use weggli_enhance.Cluster.Reports.{node_remove_slave, node_add_slave}
use weggli_enhance.Cluster.Table.{close_all_slots}

-- `resetManualFailover`, where `paused` is `clientsArePaused()`.
unfoldable pub reset_manual_failover : Bool → Cluster → Cluster
reset_manual_failover paused c =
    let c1 = if not (nat_beq c.manual.end 0) && paused then emit unpaused_clients c else c in
    record c1 { manual = record { end = 0; can_start = false; slave = none; master_offset = 0 } }

-- `clusterSetNodeAsMaster`
unfoldable pub set_node_as_master : ℕ → Cluster → Cluster
set_node_as_master p c =
    if node_is_master (c.heap p)
    then c
    else let c1 : Cluster = elim (c.heap p).slaveof [
      | none ↦ c
      | some m ↦
          let c' = (node_remove_slave m p c).0 in
          let n = c'.heap p in
          put_node p
            (record n {
              flags = record n.flags {
                migrate_to = n.flags.migrate_to || not (nat_beq p c.myself);
              };
            })
            c'
    ] in
      let n = c1.heap p in
      save_and_update (
        put_node p
          (record n { flags = record n.flags { slave = false; master = true }; slaveof = none }) c1)

-- A master turns into a slave; a slave leaves its master.
unfoldable pub leave_role : Cluster → Cluster
leave_role c =
    let me = c.heap c.myself in
    if node_is_master me
    then close_all_slots (
        put_node c.myself
          (record me {
            flags = record me.flags { master = false; migrate_to = false; slave = true };
          })
          c)
    else elim me.slaveof [ none ↦ c | some m ↦ (node_remove_slave m c.myself c).0 ]

-- This node follows the master `p`.
unfoldable pub follow : Bool → ℕ → Cluster → Cluster
unfolding reset_manual_failover
follow paused p c =
    let c1 = put_node c.myself (record (c.heap c.myself) { slaveof = some p }) c in
    let c2 = (node_add_slave p c1.myself c1).0 in
    reset_manual_failover paused (emit (replicate (c2.heap p).ip (c2.heap p).port) c2)

-- `clusterSetMaster`: the node is not this one, and this one has no slots.
unfoldable pub set_master : Bool → ℕ → Cluster → Outcome Cluster
unfolding leave_role follow
set_master paused p c =
    let me = c.heap c.myself in
    if nat_beq p c.myself || not (nat_beq me.numslots 0)
    then panic
    else done (follow paused p (leave_role c))
