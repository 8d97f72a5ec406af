-- ===== src/Cluster/Quiet/Nodes.antt =====
-- examples/cluster.c: the operations on nodes, links, reports and slaves, the epochs and the votes.
use weggli_enhance.Common.{
  ℕ, ◌+◌, ◌*◌, ◌≡◌, refl, ◌∙◌, Bool, false, not, ◌&&◌, ◌||◌, List, [], ◌∷◌, lookup, bytes_eq,
  bytes_beq, nat_beq, ltb, if◌then◌else◌, Bool-cases, Option-cases, inl, inr,
}
use weggli_enhance.Text.{Bytes}
use weggli_enhance.Cluster.State.{
  Cluster, broadcast_fail, closed_link, replicate, unpaused_clients, emit, put_node, points_to,
  node_is_master, node_is_slave, node_timed_out, node_failed,
}
use weggli_enhance.Cluster.Reports.{
  Settings, node_remove_slave, node_add_slave, del_failure_report, cleanup_failure_reports,
  failure_reports_count,
}
use weggli_enhance.Cluster.Nodes.{
  free_link, orphan_slaves, leave_master, free_node, forget_reports, rename_node, add_node,
  dict_delete,
}
use weggli_enhance.Cluster.Failing.{
  needed_quorum, mark_failing, mark_node_as_failing_if_needed, clear_fail,
  clear_node_failure_if_needed,
}
use weggli_enhance.Cluster.Handshake.{update_address_if_needed}
use weggli_enhance.Cluster.Roles.{reset_manual_failover, set_node_as_master}
use weggli_enhance.Cluster.Quiet.{frame, sent_votes, frame-emit, frame-record, if-same, Quietly}

pub frame-node_remove_slave : (m s : ℕ) (c : Cluster) → frame (node_remove_slave m s c).0 ≡ frame c
unfolding frame node_remove_slave
frame-node_remove_slave m s c = if-same (λ (r : Cluster × Bool). frame r.0) _ _ _ _ refl refl

pub frame-node_add_slave : (m s : ℕ) (c : Cluster) → frame (node_add_slave m s c).0 ≡ frame c
unfolding frame node_add_slave
frame-node_add_slave m s c = if-same (λ (r : Cluster × Bool). frame r.0) _ _ _ _ refl refl

pub frame-free_link : (p : ℕ) (c : Cluster) → frame (free_link p c) ≡ frame c
unfolding free_link sent_votes
frame-free_link p c = elim (Option-cases (c.heap p).link) [
  | inl e ↦ rw (e, free_link) refl
  | inr (l, e) ↦ rw (e, free_link) (frame-emit (closed_link l) _ refl ∙ frame-record _ _ refl)
]

frame-orphan_slaves : (ss : List ℕ) (c : Cluster) → frame (orphan_slaves ss c) ≡ frame c
unfolding orphan_slaves
frame-orphan_slaves [] c = refl
frame-orphan_slaves (s ∷ ss) c = frame-orphan_slaves ss _ ∙ frame-record _ _ refl

frame-leave_master : (p : ℕ) (c : Cluster) → frame (leave_master p c) ≡ frame c
unfolding leave_master
frame-leave_master p c = elim (Bool-cases (node_is_slave (c.heap p))) [
  | inr e ↦ rw (e, leave_master) refl
  | inl e ↦
      rw (e, leave_master)
        (elim (Option-cases (c.heap p).slaveof) [
          | inl e ↦ rw e refl
          | inr (m, e) ↦ rw e (frame-node_remove_slave m p c)
        ])
]

pub frame-free_node : (p : ℕ) (c : Cluster) → Quietly c (free_node p c)
unfolding free_node
frame-free_node p c =
    let c1 = leave_master p (orphan_slaves (c.heap p).slaves c) in
    elim (Option-cases (dict_delete (c1.heap p).name c1.nodes)) [
      | inl e ↦ rw (e, free_node) tt
      | inr (d, e) ↦
          rw (e, free_node)
            (frame-free_link p (record c1 { nodes = d })
              ∙ frame-record _ _ refl
              ∙ frame-leave_master p (orphan_slaves (c.heap p).slaves c)
              ∙ frame-orphan_slaves (c.heap p).slaves c)
    ]

pub frame-del_failure_report :
    (st : Settings) (now p s : ℕ) (c : Cluster)
    → frame (del_failure_report st now p s c).0 ≡ frame c
unfolding frame del_failure_report cleanup_failure_reports
frame-del_failure_report st now p s c =
    if-same (λ (r : Cluster × Bool). frame r.0) _ _ _ _ refl refl

pub frame-forget_reports :
    (st : Settings) (now p : ℕ) (d : List (Bytes × ℕ)) (c : Cluster)
    → frame (forget_reports st now p d c) ≡ frame c
unfolding forget_reports
frame-forget_reports st now p [] c = refl
frame-forget_reports st now p ((name, q) ∷ d) c =
    if-same frame _ _ _ _ (frame-forget_reports st now p d c)
      (frame-forget_reports st now p d _ ∙ frame-del_failure_report st now q p c)

pub frame-add_node : (p : ℕ) (c : Cluster) → frame (add_node p c).0 ≡ frame c
unfolding add_node
frame-add_node p c = elim (Option-cases (lookup (c.heap p).name c.nodes)) [
  | inl e ↦ rw (e, add_node) (frame-record _ _ refl)
  | inr (q, e) ↦ rw (e, add_node) refl
]

pub frame-rename_node : (p : ℕ) (new : Bytes) (c : Cluster) → Quietly c (rename_node p new c)
unfolding rename_node
frame-rename_node p new c = elim (Option-cases (dict_delete (c.heap p).name c.nodes)) [
  | inl e ↦ rw (e, rename_node) tt
  | inr (d, e) ↦
      rw (e, rename_node)
        (frame-add_node p (put_node p (record (c.heap p) { name = new }) (record c { nodes = d }))
          ∙ frame-record _ _ refl)
]

frame-mark_failing : (now p : ℕ) (c : Cluster) → frame (mark_failing now p c) ≡ frame c
unfolding mark_failing sent_votes
frame-mark_failing now p c =
    frame-record _ _ refl
    ∙ if-same frame _ _ _ _ (frame-emit (broadcast_fail (c.heap p).name) _ refl) refl
    ∙ frame-record _ _ refl

pub frame-mark_node_as_failing_if_needed :
    (st : Settings) (now p : ℕ) (c : Cluster)
    → frame (mark_node_as_failing_if_needed st now p c) ≡ frame c
unfolding mark_node_as_failing_if_needed failure_reports_count cleanup_failure_reports
frame-mark_node_as_failing_if_needed st now p c =
    let (c1, reports) = failure_reports_count st now p c in
    let failures = if node_is_master (c1.heap c1.myself) then reports + 1 else reports in
    elim (Bool-cases (not (node_timed_out (c.heap p)) || node_failed (c.heap p))) [
      | inl e ↦ rw (e, mark_node_as_failing_if_needed) refl
      | inr e ↦
          rw (e, mark_node_as_failing_if_needed)
            (if-same frame (ltb failures (needed_quorum c.size)) c1 (mark_failing now p c1) _
              (frame-record _ _ refl) (frame-mark_failing now p c1 ∙ frame-record c1 c refl))
    ]

pub frame-clear_node_failure_if_needed :
    (st : Settings) (now p : ℕ) (c : Cluster) → Quietly c (clear_node_failure_if_needed st now p c)
unfolding clear_node_failure_if_needed clear_fail
frame-clear_node_failure_if_needed st now p c =
    let n = c.heap p in
    let is_idle = node_is_slave n || nat_beq n.numslots 0 in
    let c1 = if is_idle then clear_fail p c else c in
    let m = c1.heap p in
    let is_back =
      node_is_master m
      && ltb 0 m.numslots
      && ltb (m.fail_time + st.cluster_node_timeout * st.fail_undo_time_mult) now in
    elim (Bool-cases (node_failed n)) [
      | inr e ↦ rw (e, clear_node_failure_if_needed) tt
      | inl e ↦
          rw (e, clear_node_failure_if_needed)
            (if-same frame is_back (clear_fail p c1) c1 _ (frame-record _ _ refl) refl
              ∙ if-same frame is_idle (clear_fail p c) c _ (frame-record _ _ refl) refl)
    ]

pub frame-update_address_if_needed :
    (p link : ℕ) (ip : Bytes) (port cport : ℕ) (c : Cluster)
    → frame (update_address_if_needed p link ip port cport c).0 ≡ frame c
unfolding update_address_if_needed sent_votes
frame-update_address_if_needed p link ip port cport c =
    let n = c.heap p in
    let c0 = put_node p (record n { ip = ip; port = port; cport = cport }) c in
    let c1 = free_link p c0 in
    let m = c1.heap p in
    let c2 = put_node p (record m { flags = record m.flags { noaddr = false } }) c1 in
    let me = c2.heap c2.myself in
    elim (Bool-cases (points_to n.link link)) [
      | inl e ↦ rw (e, update_address_if_needed) refl
      | inr e ↦
          elim (Bool-cases (nat_beq n.port port && nat_beq n.cport cport && bytes_beq ip n.ip)) [
            | inl f ↦ rw (e, update_address_if_needed) (rw f refl)
            | inr f ↦
                rw (e, update_address_if_needed)
                  (rw f (
                    if-same frame (node_is_slave me && points_to me.slaveof p)
                      (emit (replicate ip port) c2) c2 _ (frame-emit (replicate ip port) c2 refl)
                      refl
                    ∙ frame-record c2 c1 refl
                    ∙ frame-free_link p c0
                    ∙ frame-record c0 c refl))
          ]
    ]

pub frame-reset_manual_failover :
    (paused : Bool) (c : Cluster) → frame (reset_manual_failover paused c) ≡ frame c
unfolding reset_manual_failover sent_votes
frame-reset_manual_failover paused c =
    frame-record _ _ refl ∙ if-same frame _ _ _ _ (frame-emit unpaused_clients c refl) refl

pub frame-set_node_as_master : (p : ℕ) (c : Cluster) → frame (set_node_as_master p c) ≡ frame c
unfolding set_node_as_master
frame-set_node_as_master p c = elim (Bool-cases (node_is_master (c.heap p))) [
  | inl e ↦ rw (e, set_node_as_master) refl
  | inr e ↦ elim (Option-cases (c.heap p).slaveof) [
    | inl f ↦ rw (e, set_node_as_master) (rw f (frame-record _ _ refl))
    | inr (m, f) ↦
        rw (e, set_node_as_master)
          (rw f (frame-record _ (node_remove_slave m p c).0 refl ∙ frame-node_remove_slave m p c))
  ]
]
