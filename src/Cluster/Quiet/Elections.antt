-- ===== src/Cluster/Quiet/Elections.antt =====
-- examples/cluster.c: the state of the cluster and the take-over of a master's slots, the epochs
-- and the votes.
use weggli_enhance.Common.{
  ℕ, ◌+◌, ◌-◌, ◌*◌, ◌%◌, ◌≡◌, refl, ◌∙◌, Bool, true, false, not, ◌&&◌, ◌||◌, List, [], ◌∷◌, nat_beq,
  ltb, if◌then◌else◌, Outcome, done, panic, ◌>>=◌, Bool-cases, Option-cases, inl, inr,
}
use weggli_enhance.Cluster.State.{
  Cluster, broadcast_pong, saved_config, stopped_replication, put_node, emit, node_is_master,
  waiting_votes,
}
use weggli_enhance.Cluster.Reports.{Settings}
use weggli_enhance.Cluster.Table.{add_slot, del_slot, all_slots}
use weggli_enhance.Cluster.Failing.{needed_quorum}
use weggli_enhance.Cluster.Roles.{set_node_as_master}
use weggli_enhance.Cluster.Health.{
  rejoin_delay, is_uncovered, count_masters, change_state, evaluate_state, update_state,
  writable_delay,
}
use weggli_enhance.Cluster.Failover.{
  Surroundings, get_slave_rank, log_cant_failover, claim_slots, replace_your_master,
  schedule_election, update_rank, count_votes,
}
use weggli_enhance.Cluster.Quiet.{
  frame, sent_votes, frame-emit, frame-record, if-same, Ends-if, Quietly, Quietly-from,
  Quietly-bind,
}
use weggli_enhance.Cluster.Quiet.Nodes.{frame-set_node_as_master, frame-reset_manual_failover}
use weggli_enhance.Cluster.Quiet.Slots.{frame-add_slot, frame-del_slot}

frame-change_state :
    (st : Settings) (now : ℕ) (new : Bool) (c : Cluster)
    → frame (change_state st now new c) ≡ frame c
unfolding change_state
frame-change_state st now new c =
    let waits =
      new
      && node_is_master (c.heap c.myself)
      && ltb now (c.health.among_minority_time + rejoin_delay st) in
    if-same frame ((if new then c.is_ok else not c.is_ok) || waits) c (record c { is_ok = new }) _
      refl (frame-record _ c refl)

frame-evaluate_state :
    (st : Settings) (now : ℕ) (c : Cluster) → frame (evaluate_state st now c) ≡ frame c
unfolding evaluate_state
frame-evaluate_state st now c =
    let covered = not (st.require_full_coverage && is_uncovered c all_slots) in
    let (size, reachable) = count_masters c c.nodes in
    let c1 = record c { size = size } in
    let c2 = record c1 { health = record c1.health { among_minority_time = now } } in
    if-same frame (ltb reachable (needed_quorum size)) (change_state st now false c2)
      (change_state st now covered c1) _
      (frame-change_state st now false c2 ∙ frame-record c2 c refl)
      (frame-change_state st now covered c1 ∙ frame-record c1 c refl)

pub frame-update_state :
    (st : Settings) (now : ℕ) (c : Cluster) → frame (update_state st now c) ≡ frame c
unfolding update_state
frame-update_state st now c =
    let c1 = record c {
      todo = record c.todo { update_state = false };
      health = record c.health {
        first_call_time =
            if nat_beq c.health.first_call_time 0 then now else c.health.first_call_time;
      };
    } in
    let waits =
      node_is_master (c1.heap c1.myself)
      && not c1.is_ok
      && ltb now (c1.health.first_call_time + writable_delay) in
    if-same frame waits c1 (evaluate_state st now c1) _ (frame-record c1 c refl)
      (frame-evaluate_state st now c1 ∙ frame-record c1 c refl)

frame-claim_slots : (old : ℕ) (js : List ℕ) (c : Cluster) → Quietly c (claim_slots old js c)
unfolding claim_slots
frame-claim_slots old [] c = refl
frame-claim_slots old (j ∷ js) c = elim (Bool-cases ((c.heap old).slots j)) [
  | inr e ↦ rw (e, claim_slots) (frame-claim_slots old js c)
  | inl e ↦
      rw (e, claim_slots)
        (Quietly-bind (λ (r : Cluster × Bool). r.0) c (del_slot j c) _ (frame-del_slot j c)
          λ r.
            Quietly-from (add_slot r.0.myself j r.0).0 r.0 _ (frame-add_slot r.0.myself j r.0)
              (frame-claim_slots old js (add_slot r.0.myself j r.0).0))
]

frame-replace_your_master :
    (st : Settings) (env : Surroundings) (c : Cluster) → Quietly c (replace_your_master st env c)
unfolding replace_your_master sent_votes
frame-replace_your_master st env c = elim (Bool-cases (node_is_master (c.heap c.myself))) [
  | inl e ↦ rw (e, replace_your_master) refl
  | inr e ↦ elim (Option-cases (c.heap c.myself).slaveof) [
    | inl f ↦ rw (e, replace_your_master) (rw f refl)
    | inr (m, f) ↦
        let c1 = set_node_as_master c.myself c in
        let c2 = emit stopped_replication c1 in
        rw (e, replace_your_master)
          (rw f (
            Quietly-from c2 c _
              (frame-emit stopped_replication c1 refl ∙ frame-set_node_as_master c.myself c)
              (Quietly-bind (λ c'. c') c2 (claim_slots m all_slots c2) _
                (frame-claim_slots m all_slots c2)
                λ c3.
                  let c4 = emit saved_config (update_state st env.now c3) in
                  let c5 = emit (broadcast_pong true) c4 in
                  frame-reset_manual_failover env.clients_paused c5
                  ∙ frame-emit (broadcast_pong true) c4 refl
                  ∙ frame-emit saved_config (update_state st env.now c3) refl
                  ∙ frame-update_state st env.now c3)))
  ]
]

-- A run whose first part leaves the cluster alone.
after_asking :
    (c : Cluster) (o : Outcome ℕ) (k : ℕ → Outcome Cluster)
    → ((n : ℕ) → Quietly c (k n))
    → Quietly c (o >>= k)
after_asking c (done n) k h = h n
after_asking c panic k h = tt

pub frame-schedule_election :
    (env : Surroundings) (c : Cluster) → Quietly c (schedule_election env c)
unfolding schedule_election sent_votes
frame-schedule_election env c = after_asking c (get_slave_rank env.slave_offset c) _ λ rank.
    let delayed = env.now + 500 + env.random % 500 + rank * 1000 in
    let is_manual = not (nat_beq c.manual.end 0) in
    let c1 = record c {
      election = record c.election {
        time = if is_manual then env.now else delayed;
        count = 0;
        sent = false;
        rank = if is_manual then 0 else rank;
      };
    } in
    frame-emit (broadcast_pong false) c1 refl ∙ frame-record c1 c refl

pub frame-update_rank : (env : Surroundings) (c : Cluster) → Quietly c (update_rank env c)
unfolding update_rank
frame-update_rank env c = elim (Bool-cases (c.election.sent || not (nat_beq c.manual.end 0))) [
  | inl e ↦ rw (e, update_rank) refl
  | inr e ↦
      rw (e, update_rank)
        (after_asking c (get_slave_rank env.slave_offset c) _ λ newrank.
          let old = c.election.rank in
          let c1 = record c {
            election = record c.election {
              time = c.election.time + (newrank - old) * 1000;
              rank = newrank;
            };
          } in
          if-same frame (ltb old newrank) c1 c _ (frame-record c1 c refl) refl)
]

pub frame-count_votes :
    (st : Settings) (env : Surroundings) (c : Cluster) → Quietly c (count_votes st env c)
unfolding count_votes log_cant_failover
frame-count_votes st env c =
    let me = c.heap c.myself in
    let c1 =
      if ltb me.config_epoch c.election.epoch
      then put_node c.myself (record me { config_epoch = c.election.epoch }) c
      else c in
    Ends-if (λ c'. frame c' ≡ frame c) (ltb c.election.count (needed_quorum c.size))
      (done (log_cant_failover waiting_votes c)) (replace_your_master st env c1)
      (frame-record _ c refl)
      (Quietly-from c1 c _
        (if-same frame (ltb me.config_epoch c.election.epoch)
          (put_node c.myself (record me { config_epoch = c.election.epoch }) c) c _
          (frame-record _ c refl) refl)
        (frame-replace_your_master st env c1))
