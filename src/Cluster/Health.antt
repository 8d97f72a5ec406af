-- ===== src/Cluster/Health.antt =====
-- examples/cluster.c: `clusterUpdateState`, whether the cluster is seen as up, and the check of the
-- configuration against the keys at the start.
use weggli_enhance.Common.{
  ℕ, ◌+◌, Bool, true, false, not, ◌&&◌, ◌||◌, List, [], ◌∷◌, none, some, nat_beq, ltb, any,
  if◌then◌else◌,
}
use weggli_enhance.Text.{Bytes}
use weggli_enhance.Cluster.State.{
  Cluster, saved_config, write, emit, points_to, node_is_master, node_is_slave, node_failed,
}
use weggli_enhance.Cluster.Reports.{Settings}
use weggli_enhance.Cluster.Table.{all_slots, add_slot}
use weggli_enhance.Cluster.Failing.{needed_quorum}

-- `CLUSTER_MAX_REJOIN_DELAY`, `CLUSTER_MIN_REJOIN_DELAY` and `CLUSTER_WRITABLE_DELAY`
abbrev pub max_rejoin_delay : ℕ
max_rejoin_delay = 5000

abbrev pub min_rejoin_delay : ℕ
min_rejoin_delay = 500

abbrev pub writable_delay : ℕ
writable_delay = 2000

-- Some slot has no owner, or one that has failed.
unfoldable pub is_uncovered : Cluster → List ℕ → Bool
is_uncovered c js =
    any js λ j. elim (c.slots j) [ none ↦ true | some owner ↦ node_failed (c.heap owner) ]

abbrev pub serves : Cluster → Bytes × ℕ → Bool
serves c e = let n = c.heap e.1 in node_is_master n && not (nat_beq n.numslots 0)

abbrev pub is_reachable : Cluster → Bytes × ℕ → Bool
is_reachable c e = let n = c.heap e.1 in not n.flags.fail && not n.flags.pfail

-- The number of masters with a slot, and of those that are reachable.
unfoldable pub count_masters : Cluster → List (Bytes × ℕ) → ℕ × ℕ
count_masters c [] = (0, 0)
count_masters c (e ∷ d) =
    let (size, reachable) = count_masters c d in
    if serves c e
    then (size + 1, if is_reachable c e then reachable + 1 else reachable)
    else (size, reachable)

unfoldable pub rejoin_delay : Settings → ℕ
rejoin_delay st =
    let d =
      if ltb max_rejoin_delay st.cluster_node_timeout
      then max_rejoin_delay
      else st.cluster_node_timeout in
    if ltb d min_rejoin_delay then min_rejoin_delay else d

-- The end of the function, with the new state.
unfoldable pub change_state : Settings → ℕ → Bool → Cluster → Cluster
unfolding rejoin_delay
change_state st now new c =
    let waits =
      new
      && node_is_master (c.heap c.myself)
      && ltb now (c.health.among_minority_time + rejoin_delay st) in
    if (if new then c.is_ok else not c.is_ok) || waits then c else record c { is_ok = new }

-- The state from the coverage and the masters.
unfoldable pub evaluate_state : Settings → ℕ → Cluster → Cluster
unfolding is_uncovered count_masters change_state all_slots
evaluate_state st now c =
    let covered = not (st.require_full_coverage && is_uncovered c all_slots) in
    let (size, reachable) = count_masters c c.nodes in
    let c1 = record c { size = size } in
    if ltb reachable (needed_quorum size)
    then change_state st now false
        (record c1 { health = record c1.health { among_minority_time = now } })
    else change_state st now covered c1

unfoldable pub update_state : Settings → ℕ → Cluster → Cluster
unfolding evaluate_state
update_state st now c =
    let c1 = record c {
      todo = record c.todo { update_state = false };
      health = record c.health {
        first_call_time =
            if nat_beq c.health.first_call_time 0 then now else c.health.first_call_time;
      };
    } in
    let waits =
      node_is_master (c1.heap c1.myself)
      && not c1.is_ok
      && ltb now (c1.health.first_call_time + writable_delay) in
    if waits then c1 else evaluate_state st now c1

-- The loop of `verifyClusterConfigWithData` over the slots; the Boolean is `update_config != 0`.
unfoldable pub verify_slots : (ℕ → Bool) → List ℕ → Cluster → Bool → Cluster × Bool
unfolding add_slot
verify_slots keys [] c updated = (c, updated)
verify_slots keys (j ∷ js) c updated =
    let importing = elim (c.importing_slots_from j) as (λ x. Bool) [
      | none ↦ false
      | some p ↦ true
    ] in
    if not (keys j) || points_to (c.slots j) c.myself || importing
    then verify_slots keys js c updated
    else elim (c.slots j) [
      | none ↦ verify_slots keys js (add_slot c.myself j c).0 true
      | some owner ↦
          verify_slots keys js
            (record c { importing_slots_from = write j (some owner) c.importing_slots_from }) true
    ]

-- `verifyClusterConfigWithData`; `false` is `C_ERR`, and `other_dbs` that a database but the first
-- has keys.
unfoldable pub verify_config_with_data : (ℕ → Bool) → Bool → Cluster → Cluster × Bool
unfolding verify_slots all_slots
verify_config_with_data keys other_dbs c =
    if node_is_slave (c.heap c.myself)
    then (c, true)
    else if other_dbs
    then (c, false)
    else let (c1, updated) = verify_slots keys all_slots c false in
      (if updated then emit saved_config c1 else c1, true)
