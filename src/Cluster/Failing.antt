-- ===== src/Cluster/Failing.antt =====
-- examples/cluster.c: when a node is marked as failing, and when the mark is taken back.
use weggli_enhance.Common.{
  ℕ, ◌+◌, ◌*◌, ◌/◌, true, false, not, ◌&&◌, ◌||◌, nat_beq, ltb, if◌then◌else◌, Outcome, done, panic,
}
use weggli_enhance.Cluster.State.{
  Cluster, broadcast_fail, put_node, emit, save_and_update, node_is_master, node_is_slave,
  node_timed_out, node_failed,
}
use weggli_enhance.Cluster.Reports.{Settings, failure_reports_count}

-- `(size / 2) + 1`
abbrev pub needed_quorum : ℕ → ℕ
needed_quorum size = size / 2 + 1

-- The node is marked and the others are told.
unfoldable pub mark_failing : ℕ → ℕ → Cluster → Cluster
mark_failing now p c =
    let n = c.heap p in
    let c1 =
      put_node p
        (record n { flags = record n.flags { pfail = false; fail = true }; fail_time = now }) c in
    let c2 = if node_is_master (c1.heap c1.myself) then emit (broadcast_fail n.name) c1 else c1 in
    save_and_update c2

unfoldable pub mark_node_as_failing_if_needed : Settings → ℕ → ℕ → Cluster → Cluster
unfolding mark_failing failure_reports_count
mark_node_as_failing_if_needed st now p c =
    if not (node_timed_out (c.heap p)) || node_failed (c.heap p)
    then c
    else let (c1, reports) = failure_reports_count st now p c in
      let failures = if node_is_master (c1.heap c1.myself) then reports + 1 else reports in
      if ltb failures (needed_quorum c.size) then c1 else mark_failing now p c1

unfoldable pub clear_fail : ℕ → Cluster → Cluster
clear_fail p c =
    let n = c.heap p in
    save_and_update (put_node p (record n { flags = record n.flags { fail = false } }) c)

-- `clearNodeFailureIfNeeded`, which asserts that the node has failed.
unfoldable pub clear_node_failure_if_needed : Settings → ℕ → ℕ → Cluster → Outcome Cluster
unfolding clear_fail
clear_node_failure_if_needed st now p c =
    let n = c.heap p in
    let c1 = if node_is_slave n || nat_beq n.numslots 0 then clear_fail p c else c in
    let m = c1.heap p in
    let c2 =
      if node_is_master m
        && ltb 0 m.numslots
        && ltb (m.fail_time + st.cluster_node_timeout * st.fail_undo_time_mult) now
      then clear_fail p c1
      else c1 in
    if node_failed n then done c2 else panic
