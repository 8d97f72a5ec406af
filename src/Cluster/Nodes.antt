-- ===== src/Cluster/Nodes.antt =====
-- examples/cluster.c: the table of the nodes by name, with the creation and the removal of nodes.
-- The address of a new node and its random name are parameters.
use weggli_enhance.Common.{
  ℕ, Bool, true, false, List, [], ◌∷◌, Option, none, some, nat_beq, if◌then◌else◌, lookup, insert,
  bytes_beq, bytes_eq, Outcome, done, panic, ◌>>=◌,
}
use weggli_enhance.Text.{Bytes}
use weggli_enhance.Cluster.State.{
  Flags, Node, Cluster, closed_link, put_node, write, emit, points_to, node_is_slave,
}
use weggli_enhance.Cluster.Reports.{Settings, del_failure_report, node_remove_slave}
use weggli_enhance.Cluster.Table.{all_slots, del_slot}

-- `dictDelete`: the table without the key, or none where it has no such key.
unfoldable pub dict_delete : Bytes → List (Bytes × ℕ) → Option (List (Bytes × ℕ))
dict_delete k [] = none
dict_delete k ((j, v) ∷ d) = elim (bytes_beq j k) [
  | true ↦ some d
  | false ↦ elim (dict_delete k d) [ none ↦ none | some d' ↦ some ((j, v) ∷ d') ]
]

-- `createClusterNode`, with the name that is given or drawn.
unfoldable pub create_node : ℕ → Bytes → Flags → Node
create_node now name flags = record {
  name = name;
  ctime = now;
  config_epoch = 0;
  flags = flags;
  slots = λ j. false;
  numslots = 0;
  slaves = [];
  slaveof = none;
  ping_sent = 0;
  pong_received = 0;
  fail_time = 0;
  link = none;
  ip = [];
  port = 0;
  cport = 0;
  fail_reports = [];
  voted_time = 0;
  orphaned_time = 0;
  repl_offset_time = 0;
  repl_offset = 0;
}

-- `clusterAddNode`; `false` is `C_ERR`.
unfoldable pub add_node : ℕ → Cluster → Cluster × Bool
add_node p c = elim (lookup (c.heap p).name c.nodes) [
  | some q ↦ (c, false)
  | none ↦ (record c { nodes = insert (c.heap p).name p c.nodes }, true)
]

unfoldable pub lookup_node : Bytes → Cluster → Option ℕ
lookup_node name c = lookup name c.nodes

-- `freeClusterLink` of a node's link.
unfoldable pub free_link : ℕ → Cluster → Cluster
free_link p c = elim (c.heap p).link [
  | none ↦ c
  | some l ↦ emit (closed_link l) (put_node p (record (c.heap p) { link = none }) c)
]

-- `slaves[j]->slaveof = NULL`
unfoldable pub orphan_slaves : List ℕ → Cluster → Cluster
orphan_slaves [] c = c
orphan_slaves (s ∷ ss) c = orphan_slaves ss (put_node s (record (c.heap s) { slaveof = none }) c)

-- The node leaves the list of its master, where it is a slave that has one.
unfoldable pub leave_master : ℕ → Cluster → Cluster
leave_master p c =
    let n = c.heap p in
    if node_is_slave n
    then elim n.slaveof [ none ↦ c | some m ↦ (node_remove_slave m p c).0 ]
    else c

-- `freeClusterNode`: the node has to be in the table. Its memory is not used again.
unfoldable pub free_node : ℕ → Cluster → Outcome Cluster
unfolding orphan_slaves leave_master dict_delete free_link
free_node p c =
    let c1 = leave_master p (orphan_slaves (c.heap p).slaves c) in
    elim (dict_delete (c1.heap p).name c1.nodes) [
      | none ↦ panic
      | some d ↦ done (free_link p (record c1 { nodes = d }))
    ]

-- The loop of `clusterDelNode` over the slots.
unfoldable pub release_slots : ℕ → List ℕ → Cluster → Outcome Cluster
release_slots p [] c = done c
release_slots p (j ∷ js) c =
    let c1 = record c {
      importing_slots_from =
          if points_to (c.importing_slots_from j) p
          then write j none c.importing_slots_from
          else c.importing_slots_from;
      migrating_slots_to =
          if points_to (c.migrating_slots_to j) p
          then write j none c.migrating_slots_to
          else c.migrating_slots_to;
    } in
    elim (points_to (c1.slots j) p) [
      | false ↦ release_slots p js c1
      | true ↦ do (c2, deleted) ← del_slot j c1; release_slots p js c2
    ]

-- The loop of `clusterDelNode` over the nodes.
unfoldable pub forget_reports : Settings → ℕ → ℕ → List (Bytes × ℕ) → Cluster → Cluster
forget_reports st now p [] c = c
forget_reports st now p ((name, q) ∷ d) c =
    let rest = forget_reports st now p d in
    if nat_beq q p then rest c else rest (del_failure_report st now q p c).0

-- `clusterDelNode`
unfoldable pub del_node : Settings → ℕ → ℕ → Cluster → Outcome Cluster
unfolding release_slots forget_reports free_node
del_node st now p c = do
  c1 ← release_slots p all_slots c
  free_node p (forget_reports st now p c1.nodes c1)

-- `clusterRenameNode`: the node has to be in the table under its old name.
unfoldable pub rename_node : ℕ → Bytes → Cluster → Outcome Cluster
unfolding add_node dict_delete
rename_node p newname c = elim (dict_delete (c.heap p).name c.nodes) [
  | none ↦ panic
  | some d ↦
      done
        (add_node p (put_node p (record (c.heap p) { name = newname }) (record c { nodes = d }))).0
]
