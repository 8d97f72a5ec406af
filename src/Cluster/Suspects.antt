-- ===== src/Cluster/Suspects.antt =====
-- examples/cluster.c: `markNodeAsFailingIfNeeded`, which compares the failure reports with a quorum.
use weggli_enhance.Common.{
  ℕ, ◌+◌, ◌*◌, ◌/◌, ltb→lt, ◌<◌, ◌≤◌, ◌≡◌, refl, ap, ◌∙◌, Bool, true, false, not, ◌||◌, List, [],
  ◌∷◌, nat_beq, ltb, if◌then◌else◌, arith, length, Bool-cases, inl, inr, ◌↔◌,
}
use weggli_enhance.Cluster.State.{
  FailReport, Flags, Cluster, put_node, emit, broadcast_fail, node_is_master,
}
use weggli_enhance.Cluster.Reports.{
  Settings, cleanup_reports, cleanup_failure_reports, failure_reports_count,
}
use weggli_enhance.Cluster.Failing.{needed_quorum, mark_failing, mark_node_as_failing_if_needed}
use weggli_enhance.Cluster.Table.Agreement.{at_put}
use weggli_enhance.Cluster.Quiet.{if-same}

-- The number of reports that are no older than the node timeout times the factor of the settings.
unfoldable pub count_recent : Settings → ℕ → List FailReport → ℕ
count_recent st now [] = 0
count_recent st now (fr ∷ frs) =
    if ltb (fr.time + st.cluster_node_timeout * st.fail_report_validity_mult) now
    then count_recent st now frs
    else count_recent st now frs + 1

length-cleanup_reports :
    (st : Settings) (now : ℕ) (frs : List FailReport)
    → length (cleanup_reports st now frs) ≡ count_recent st now frs
unfolding cleanup_reports count_recent
length-cleanup_reports st now [] = refl
length-cleanup_reports st now (fr ∷ frs) =
    elim (Bool-cases (ltb (fr.time + st.cluster_node_timeout * st.fail_report_validity_mult) now)) [
      | inl e ↦ rw e (length-cleanup_reports st now frs)
      | inr e ↦ rw e (let h = length-cleanup_reports st now frs in omega (arith, h))
    ]

-- The votes against a node: the recent reports, and this node's where it is a master.
abbrev pub votes_against : Settings → ℕ → ℕ → Cluster → ℕ
votes_against st now p c =
    let reports = count_recent st now (c.heap p).fail_reports in
    if node_is_master (c.heap c.myself) then reports + 1 else reports

own-flags :
    (st : Settings) (now p : ℕ) (c : Cluster)
    → ((cleanup_failure_reports st now p c).heap c.myself).flags ≡ (c.heap c.myself).flags
unfolding cleanup_failure_reports
own-flags st now p c = at_put (λ n m. m.flags ≡ n.flags) c.heap p _ (λ n. refl) refl c.myself

counted-reports :
    (st : Settings) (now p : ℕ) (c : Cluster)
    → (failure_reports_count st now p c).1 ≡ count_recent st now (c.heap p).fail_reports
unfolding failure_reports_count cleanup_failure_reports
counted-reports st now p c =
    let self : nat_beq p p ≡ true = ground arith in
    rw self (length-cleanup_reports st now (c.heap p).fail_reports)

mark_failing-fail : (now p : ℕ) (c : Cluster) → ((mark_failing now p c).heap p).flags.fail ≡ true
unfolding mark_failing
mark_failing-fail now p c =
    let n = c.heap p in
    let c1 =
      put_node p
        (record n { flags = record n.flags { pfail = false; fail = true }; fail_time = now }) c in
    let self : nat_beq p p ≡ true = ground arith in
    if-same (λ (x : Cluster). (x.heap p).flags.fail) (node_is_master (c1.heap c1.myself))
      (emit (broadcast_fail n.name) c1) c1 _ (rw self refl) (rw self refl)

kept-flags :
    (st : Settings) (now p q : ℕ) (c : Cluster)
    → ((failure_reports_count st now p c).0.heap q).flags ≡ (c.heap q).flags
unfolding failure_reports_count cleanup_failure_reports
kept-flags st now p q c = at_put (λ n m. m.flags ≡ n.flags) c.heap p _ (λ n. refl) refl q

suspicion : (a b x y : Bool) → a ≡ x → b ≡ false → not x ≡ y → not a || b ≡ y
suspicion a b x y e f g = rw (e, f) (ground (arith, g))

-- The state with the old reports dropped.
abbrev cleaned : Settings → ℕ → ℕ → Cluster → Cluster
cleaned st now p c = (failure_reports_count st now p c).0

counted-votes :
    (st : Settings) (now p : ℕ) (c : Cluster)
    → (if node_is_master ((cleaned st now p c).heap (cleaned st now p c).myself)
        then (failure_reports_count st now p c).1 + 1
        else (failure_reports_count st now p c).1)
      ≡ votes_against st now p c
unfolding failure_reports_count cleanup_failure_reports
counted-votes st now p c =
    let own : node_is_master ((cleaned st now p c).heap c.myself)
        ≡ node_is_master (c.heap c.myself) =
      ap (λ (f : Flags). f.master) (kept-flags st now p c.myself c) in
    rw (own, counted-reports st now p c) refl

mark-suspected :
    (st : Settings) (now p : ℕ) (c : Cluster)
    → (c.heap p).flags.fail ≡ false
    → (c.heap p).flags.pfail ≡ true
    → mark_node_as_failing_if_needed st now p c ≡ (
        if ltb (votes_against st now p c) (needed_quorum c.size)
        then cleaned st now p c
        else mark_failing now p (cleaned st now p c))
unfolding mark_node_as_failing_if_needed
mark-suspected st now p c up e =
    rw (suspicion (c.heap p).flags.pfail _ true false e up refl, mark_node_as_failing_if_needed)
      (ap
        (λ n.
          if ltb n (needed_quorum c.size)
          then cleaned st now p c
          else mark_failing now p (cleaned st now p c))
        (counted-votes st now p c))

-- A node that is not marked as failing is marked exactly when it is suspected here and the votes
-- against it reach the quorum, more than half of the masters with slots.
pub mark_node_as_failing_if_needed-majority :
    (st : Settings) (now p : ℕ) (c : Cluster)
    → (c.heap p).flags.fail ≡ false
    → (((mark_node_as_failing_if_needed st now p c).heap p).flags.fail ≡ true)
      ↔ (((c.heap p).flags.pfail ≡ true) × (c.size < 2 * votes_against st now p c))
unfolding mark_node_as_failing_if_needed
mark_node_as_failing_if_needed-majority st now p c up = elim (Bool-cases (c.heap p).flags.pfail) [
  | inr e ↦
      let quiet : mark_node_as_failing_if_needed st now p c ≡ c =
        rw (suspicion (c.heap p).flags.pfail _ false true e up refl, mark_node_as_failing_if_needed)
          refl in
      rw quiet (λ h. absurd (ground (arith, h, up)), λ (h, k). absurd (ground (arith, h, e)))
  | inl e ↦
      let votes = votes_against st now p c in
      elim (Bool-cases (ltb votes (needed_quorum c.size))) [
        | inl few ↦
            let quiet : ((cleaned st now p c).heap p).flags.fail ≡ false =
              ap (λ (f : Flags). f.fail) (kept-flags st now p p c) ∙ up in
            rw (mark-suspected st now p c up e) (
              rw few (
                λ h. absurd (ground (arith, h, quiet)),
                λ (h, k). absurd (too_few votes c.size few k),
              ))
        | inr many ↦ rw (mark-suspected st now p c up e) (
            rw many (
              λ h. (e, enough votes c.size many),
              λ h. mark_failing-fail now p (cleaned st now p c),
            ))
      ]
]
  where
    too_few : (v n : ℕ) → ltb v (n / 2 + 1) ≡ true → n < 2 * v → ⊥
    too_few v n h k = let l = ltb→lt v (n / 2 + 1) h in omega (arith, l, k)

    enough : (v n : ℕ) → ltb v (n / 2 + 1) ≡ false → n < 2 * v
    enough v n h = let l : n / 2 + 1 ≤ v = ground (arith, h) in omega (arith, l)
