-- ===== src/Cluster/Configs.antt =====
-- examples/cluster.c: what `clusterProcessPacket` does with the role, the slots and the epoch that
-- the sender of a PING, PONG or MEET claims.
use weggli_enhance.Common.{
  ℕ, Bool, true, false, not, ◌&&◌, ◌||◌, List, [], ◌∷◌, none, some, nat_beq, ltb, any,
  if◌then◌else◌, bytes_beq, Outcome, done, ◌>>=◌,
}
use weggli_enhance.Cluster.State.{
  Cluster, sent_update, put_node, emit, points_to, save, save_and_update, node_is_master,
}
use weggli_enhance.Cluster.Reports.{Settings, node_remove_slave, node_add_slave}
use weggli_enhance.Cluster.Table.{all_slots, del_node_slots}
use weggli_enhance.Cluster.Nodes.{lookup_node}
use weggli_enhance.Cluster.Epochs.{handle_epoch_collision}
use weggli_enhance.Cluster.Roles.{set_node_as_master}
use weggli_enhance.Cluster.Rebind.{update_slots_config_with}
use weggli_enhance.Cluster.Packet.{Message, Arrival}

-- A master that turned into a slave loses its slots.
unfoldable pub demote : ℕ → Cluster → Outcome Cluster
demote s c = if not (node_is_master (c.heap s)) then done c else do
  (c1, deleted) ← del_node_slots s c
  let n = c1.heap s
  done (
      save_and_update (
        put_node s
          (record n { flags = record n.flags { master = false; migrate_to = false; slave = true } })
          c1))

-- A slave that follows another master.
unfoldable pub change_master : ℕ → ℕ → Cluster → Cluster
change_master s m c =
    let old = (c.heap s).slaveof in
    if points_to old m
    then c
    else let c1 : Cluster = elim old [ none ↦ c | some o ↦ (node_remove_slave o s c).0 ] in
      let c2 = (node_add_slave m s c1).0 in
      save (put_node s (record (c2.heap s) { slaveof = some m }) c2)

-- The role that the sender claims.
unfoldable pub switch_role : Arrival → Message → ℕ → Cluster → Outcome Cluster
unfolding demote change_master
switch_role arr msg s c =
    if bytes_beq msg.slaveof arr.null_name then done (set_node_as_master s c) else do
      c1 ← demote s c
      done (elim (lookup_node msg.slaveof c) [ none ↦ c1 | some m ↦ change_master s m c1 ])

-- The bitmaps differ, in some slot.
abbrev differs : (ℕ → Bool) → (ℕ → Bool) → Bool
differs a b = any all_slots λ j. if a j then not (b j) else b j

-- `dirty_slots`: the slots claimed are not those of the sender, or of its master.
unfoldable pub is_dirty : Message → ℕ → Cluster → Bool
unfolding all_slots
is_dirty msg s c =
    let n = c.heap s in
    elim (if node_is_master n then some s else n.slaveof) [
      | none ↦ false
      | some m ↦ differs (c.heap m).slots msg.myslots
    ]

-- The loop that tells the sender of the first slot that has a newer owner.
unfoldable pub notify_outdated : Message → ℕ → ℕ → List ℕ → Cluster → Cluster
notify_outdated msg epoch s [] c = c
notify_outdated msg epoch s (j ∷ js) c =
    let rest = notify_outdated msg epoch s js c in
    if not (msg.myslots j) || points_to (c.slots j) s then rest else elim (c.slots j) [
      | none ↦ rest
      | some owner ↦
          if ltb epoch (c.heap owner).config_epoch
          then elim (c.heap s).link [ none ↦ c | some l ↦ emit (sent_update l owner) c ]
          else rest
    ]

-- The slots and the epoch that the sender claims.
unfoldable pub update_claims : Settings → Arrival → Message → ℕ → ℕ → Cluster → Outcome Cluster
unfolding is_dirty notify_outdated all_slots
update_claims st arr msg epoch s c = do
  let dirty = is_dirty msg s c
  c1 ←
      (if node_is_master (c.heap s) && dirty
        then update_slots_config_with arr.keys arr.clients_paused s epoch msg.myslots c
        else done c)
  let c2 = if dirty then notify_outdated msg epoch s all_slots c1 else c1
  let me = c2.heap c2.myself
  let collides = node_is_master me && node_is_master (c2.heap s) && nat_beq epoch me.config_epoch
  done (if collides then handle_epoch_collision s c2 else c2)
