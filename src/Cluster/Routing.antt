-- ===== src/Cluster/Routing.antt =====
-- examples/cluster.c: `getNodeByQuery`, which node serves a command. `getKeysFromCommand` is not part
-- of the file, so a command is given with its keys; `has_key` is a look-up in the database that finds
-- the key.
pub mod Stable
pub mod Crossing
use weggli_enhance.Common.{
  ℕ, ◌+◌, Bool, true, false, not, ◌&&◌, ◌||◌, List, [], ◌∷◌, Option, none, some, nat_beq, bytes_beq,
  if◌then◌else◌,
}
use weggli_enhance.Text.{Bytes}
use weggli_enhance.Cluster.{key_hash_slot}
use weggli_enhance.Cluster.State.{Node, Cluster, points_to, node_is_slave}

-- The `CLUSTER_REDIR_*` codes; `served` is `CLUSTER_REDIR_NONE`.
pub data Redirection : Type 0 where
  served cross_slot unstable ask moved down_state down_unbound : Redirection

-- What is returned: the node, the error code, and the slot where it is set.
pub record Answer : Type 0 where
  pub node : Option ℕ
  pub code : Redirection
  pub slot : Option ℕ

-- The command and its client. `commands` has the keys of each command of a transaction.
pub record Query : Type 0 where
  pub is_exec : Bool
  pub in_multi : Bool
  pub commands : List (List Bytes)
  pub keys : List Bytes
  pub is_migrate : Bool
  pub asking : Bool
  pub readonly_client : Bool
  pub readonly_command : Bool

-- The variables of the loops: the first key, its slot and its owner once there is one.
pub record Seen : Type 0 where
  pub firstkey : Bytes
  pub slot : ℕ
  pub node : ℕ
  pub migrating : Bool
  pub importing : Bool
  pub multiple_keys : Bool
  pub missing_keys : ℕ

-- The loops have seen no key, or some, or have returned an error.
pub data Scan : Type 0 where
  nothing : Scan
  seen : Seen → Scan
  stopped : Redirection → Scan

abbrev pub is_null : Option ℕ → Bool
is_null none = true
is_null (some p) = false

module _ (crc16 : Bytes → ℕ) (has_key : Bytes → Bool) where
  -- A key that is not there counts while the slot is open.
  unfoldable pub count_missing : Bytes → Seen → Seen
  count_missing key s =
      if (s.migrating || s.importing) && not (has_key key)
      then record s { missing_keys = s.missing_keys + 1 }
      else s

  unfoldable pub scan_first : Cluster → Bytes → Scan
  unfolding count_missing
  scan_first c key =
      let slot = key_hash_slot crc16 key in
      elim (c.slots slot) [
        | none ↦ stopped down_unbound
        | some n ↦
            let migrating = nat_beq n c.myself && not (is_null (c.migrating_slots_to slot)) in
            seen (
              count_missing key (record {
                firstkey = key;
                slot = slot;
                node = n;
                migrating = migrating;
                importing = not migrating && not (is_null (c.importing_slots_from slot));
                multiple_keys = false;
                missing_keys = 0;
              }))
      ]

  unfoldable pub scan_next : Bytes → Seen → Scan
  unfolding count_missing
  scan_next key s =
      if bytes_beq s.firstkey key
      then seen (count_missing key s)
      else if not (nat_beq s.slot (key_hash_slot crc16 key))
      then stopped cross_slot
      else seen (count_missing key (record s { multiple_keys = true }))

  -- The loop over the keys of a command.
  unfoldable pub scan_keys : Cluster → List Bytes → Scan → Scan
  unfolding scan_first scan_next
  scan_keys c [] scan = scan
  scan_keys c (key ∷ keys) nothing = scan_keys c keys (scan_first c key)
  scan_keys c (key ∷ keys) (seen s) = scan_keys c keys (scan_next key s)
  scan_keys c (key ∷ keys) (stopped e) = stopped e

  -- The loop over the commands.
  unfoldable pub scan_commands : Cluster → List (List Bytes) → Scan → Scan
  unfolding scan_keys
  scan_commands c [] scan = scan
  scan_commands c (keys ∷ commands) scan = scan_commands c commands (scan_keys c keys scan)

  -- What follows the loops, where there was a key.
  unfoldable pub route : Cluster → Query → Seen → Answer
  route c q s =
      let me = c.heap c.myself in
      let here : Answer = record { node = some c.myself; code = served; slot = some s.slot } in
      if not c.is_ok
      then record { node = none; code = down_state; slot = none }
      else if (s.migrating || s.importing) && q.is_migrate
      then here
      else if s.migrating && not (nat_beq s.missing_keys 0)
      then record { node = c.migrating_slots_to s.slot; code = ask; slot = some s.slot }
      else if s.importing && q.asking
      then if s.multiple_keys && not (nat_beq s.missing_keys 0)
        then record { node = none; code = unstable; slot = some s.slot }
        else here
      else if q.readonly_client
          && q.readonly_command
          && node_is_slave me
          && points_to me.slaveof s.node
      then here
      else record {
        node = some s.node;
        code = if nat_beq s.node c.myself then served else moved;
        slot = some s.slot;
      }

  -- `getNodeByQuery`
  unfoldable pub get_node_by_query : Cluster → Query → Answer
  unfolding scan_commands route
  get_node_by_query c q =
      let here : Answer = record { node = some c.myself; code = served; slot = none } in
      if q.is_exec && not q.in_multi
      then here
      else elim (scan_commands c (if q.is_exec then q.commands else q.keys ∷ []) nothing) [
        | nothing ↦ here
        | seen s ↦ route c q s
        | stopped e ↦ record { node = none; code = e; slot = none }
      ]
