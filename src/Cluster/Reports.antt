-- ===== src/Cluster/Reports.antt =====
-- examples/cluster.c: the failure reports about a node, and the slaves of a master. The header's
-- `CLUSTER_FAIL_REPORT_VALIDITY_MULT` and the server's settings are the parameters of `Settings`.
use weggli_enhance.Common.{
  ℕ, ◌+◌, ◌*◌, Bool, true, false, not, ◌&&◌, List, [], ◌∷◌, ◌++◌, ltb, nat_beq, if◌then◌else◌,
  length, filter,
}
use weggli_enhance.Cluster.State.{FailReport, Node, Cluster, put_node, node_failed}

-- The settings of the server and the factors of the header.
pub record Settings : Type 0 where
  pub cluster_node_timeout : ℕ
  pub fail_report_validity_mult : ℕ
  pub fail_undo_time_mult : ℕ
  pub require_full_coverage : Bool
  pub slave_validity_factor : ℕ
  pub repl_ping_slave_period : ℕ

-- The loop over the reports: the sender's is given the time, or none is found.
unfoldable pub refresh_report : ℕ → ℕ → List FailReport → List FailReport × Bool
refresh_report now sender [] = ([], false)
refresh_report now sender (fr ∷ frs) =
    let (rest, found) = refresh_report now sender frs in
    if nat_beq fr.node sender then (record fr { time = now } ∷ frs, true) else (fr ∷ rest, found)

-- The reports after one more of the sender, and whether it is a new one.
unfoldable pub add_report : ℕ → ℕ → List FailReport → List FailReport × Bool
unfolding refresh_report
add_report now sender frs =
    let (refreshed, found) = refresh_report now sender frs in
    if found then (refreshed, false) else (frs ++ record { node = sender; time = now } ∷ [], true)

unfoldable pub cleanup_reports : Settings → ℕ → List FailReport → List FailReport
cleanup_reports st now frs =
    let maxtime = st.cluster_node_timeout * st.fail_report_validity_mult in
    filter (λ fr. not (ltb (fr.time + maxtime) now)) frs

-- The list without the first report of the sender, and whether there is one.
unfoldable pub remove_report : ℕ → List FailReport → List FailReport × Bool
remove_report sender [] = ([], false)
remove_report sender (fr ∷ frs) =
    let (rest, found) = remove_report sender frs in
    if nat_beq fr.node sender then (frs, true) else (fr ∷ rest, found)

unfoldable pub add_failure_report : ℕ → ℕ → ℕ → Cluster → Cluster × Bool
unfolding add_report
add_failure_report now failing sender c =
    let n = c.heap failing in
    let (frs, new) = add_report now sender n.fail_reports in
    (put_node failing (record n { fail_reports = frs }) c, new)

unfoldable pub cleanup_failure_reports : Settings → ℕ → ℕ → Cluster → Cluster
unfolding cleanup_reports
cleanup_failure_reports st now p c =
    let n = c.heap p in
    put_node p (record n { fail_reports = cleanup_reports st now n.fail_reports }) c

unfoldable pub del_failure_report : Settings → ℕ → ℕ → ℕ → Cluster → Cluster × Bool
unfolding remove_report cleanup_failure_reports
del_failure_report st now p sender c =
    let n = c.heap p in
    let (frs, found) = remove_report sender n.fail_reports in
    if found
    then (cleanup_failure_reports st now p (put_node p (record n { fail_reports = frs }) c), true)
    else (c, false)

-- The number of reports left after the clean-up.
unfoldable pub failure_reports_count : Settings → ℕ → ℕ → Cluster → Cluster × ℕ
unfolding cleanup_failure_reports
failure_reports_count st now p c =
    let c' = cleanup_failure_reports st now p c in (c', length (c'.heap p).fail_reports)

-- The array without the first entry of the slave, and whether there is one.
unfoldable pub remove_slave : ℕ → List ℕ → List ℕ × Bool
remove_slave slave [] = ([], false)
remove_slave slave (s ∷ ss) =
    let (rest, found) = remove_slave slave ss in
    if nat_beq s slave then (ss, true) else (s ∷ rest, found)

abbrev is_no_list : List ℕ → Bool
is_no_list [] = true
is_no_list (s ∷ ss) = false

-- `clusterNodeRemoveSlave`; `false` is `C_ERR`.
unfoldable pub node_remove_slave : ℕ → ℕ → Cluster → Cluster × Bool
unfolding remove_slave
node_remove_slave master slave c =
    let m = c.heap master in
    let (slaves, found) = remove_slave slave m.slaves in
    if found
    then (
      put_node master
          (record m {
            slaves = slaves;
            flags = record m.flags { migrate_to = m.flags.migrate_to && not (is_no_list slaves) };
          })
          c,
      true,
    )
    else (c, false)

abbrev pub has_slave : ℕ → List ℕ → Bool
has_slave slave [] = false
has_slave slave (s ∷ ss) = if nat_beq s slave then true else has_slave slave ss

-- `clusterNodeAddSlave`; `false` is `C_ERR`.
unfoldable pub node_add_slave : ℕ → ℕ → Cluster → Cluster × Bool
node_add_slave master slave c =
    let m = c.heap master in
    if has_slave slave m.slaves then (c, false) else (
      put_node master
          (record m {
            slaves = m.slaves ++ slave ∷ [];
            flags = record m.flags { migrate_to = true };
          })
          c,
      true,
    )

unfoldable pub count_non_failing : (ℕ → Node) → List ℕ → ℕ
count_non_failing heap [] = 0
count_non_failing heap (s ∷ ss) =
    if node_failed (heap s) then count_non_failing heap ss else 1 + count_non_failing heap ss

unfoldable pub count_non_failing_slaves : ℕ → Cluster → ℕ
unfolding count_non_failing
count_non_failing_slaves p c = count_non_failing c.heap (c.heap p).slaves
