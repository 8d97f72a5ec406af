-- ===== src/Cluster/Voting/Steps.antt =====
-- examples/cluster.c: the runs of a node as sequences of packets, elections and changes of its own
-- epoch.
use weggli_enhance.Common.{
  ℕ, ◌+◌, ◌*◌, ◌≤◌, ◌≡◌, refl, subst, ◌∙◌, Bool, true, false, not, ◌&&◌, [], Option, ltb, arith,
  Outcome, done, panic,
}
use weggli_enhance.Text.{Bytes}
use weggli_enhance.Cluster.State.{
  Cluster, requested_failover_auth, emit, increment, save_update_and_sync, no_reason, data_age,
  waiting_delay, expired,
}
use weggli_enhance.Cluster.Reports.{Settings}
use weggli_enhance.Cluster.Epochs.{bump_config_epoch}
use weggli_enhance.Cluster.Health.{update_state}
use weggli_enhance.Cluster.Failover.{
  Surroundings, auth_timeout, is_data_old, is_manual, is_needless, log_cant_failover,
  schedule_election, update_rank, start_election, count_votes, continue_election, run_election,
  handle_slave_failover,
}
use weggli_enhance.Cluster.Packet.{Message, Sizes, Arrival}
use weggli_enhance.Cluster.Dispatch.{process_packet}
use weggli_enhance.Cluster.Quiet.{
  frame, sent_votes, frame-emit, frame-record, Ends, Ends-bind, Ends-if, Quietly,
}
use weggli_enhance.Cluster.Quiet.Elections.{
  frame-update_state, frame-schedule_election, frame-update_rank, frame-count_votes,
}
use weggli_enhance.Cluster.Voting.{
  VotesOnce, Raises, Raises-frame, Raises-trans, Raises-VotesOnce, current_epoch-frame, count_of,
}
use weggli_enhance.Cluster.Voting.Epochs.{HasNext, bump_config_epoch-Raises}
use weggli_enhance.Cluster.Voting.Packets.{process_packet-VotesOnce}

start_election-Raises : (c : Cluster) → HasNext c.current_epoch → Raises c (start_election c)
unfolding start_election sent_votes
start_election-Raises c h =
    let epoch = increment c.current_epoch in
    let next : epoch ≡ c.current_epoch + 1 = omega (arith, h) in
    let c1 = record c {
      current_epoch = epoch;
      election = record c.election { epoch = epoch; sent = true };
    } in
    let c2 = emit (requested_failover_auth epoch) c1 in
    Raises-trans c c1 (save_update_and_sync c2)
      (record { current = omega (arith, next); last = refl; votes = refl })
      (Raises-frame c1 (save_update_and_sync c2) (
        frame-record (save_update_and_sync c2) c2 refl
        ∙ frame-emit (requested_failover_auth epoch) c1 refl))

Raises-quiet : (c : Cluster) (o : Outcome Cluster) → Quietly c o → Ends (Raises c) o
Raises-quiet c (done c') e = Raises-frame c c' e
Raises-quiet c panic e = tt

Raises-from :
    (c1 c : Cluster) (o : Outcome Cluster)
    → frame c1 ≡ frame c
    → Ends (Raises c1) o
    → Ends (Raises c) o
Raises-from c1 c (done c') e r = Raises-trans c c1 c' (Raises-frame c c1 e) r
Raises-from c1 c panic e r = tt

continue_election-Raises :
    (st : Settings) (env : Surroundings) (time : ℕ) (c : Cluster)
    → HasNext c.current_epoch
    → Ends (Raises c) (continue_election st env time c)
unfolding continue_election log_cant_failover
continue_election-Raises st env time c h =
    Ends-if (Raises c) (ltb env.now c.election.time) (done (log_cant_failover waiting_delay c)) _
      (Raises-frame c _ (frame-record _ c refl))
      (Ends-if (Raises c) (ltb (time + auth_timeout st) env.now)
        (done (log_cant_failover expired c)) _ (Raises-frame c _ (frame-record _ c refl))
        (Ends-if (Raises c) c.election.sent (count_votes st env c) (done (start_election c))
          (Raises-quiet c (count_votes st env c) (frame-count_votes st env c))
          (start_election-Raises c h)))

run_election-Raises :
    (st : Settings) (env : Surroundings) (time : ℕ) (c : Cluster)
    → HasNext c.current_epoch
    → Ends (Raises c) (run_election st env time c)
unfolding run_election
run_election-Raises st env time c h =
    Ends-bind (λ c1. frame c1 ≡ frame c) (Raises c) (update_rank env c) _ (frame-update_rank env c)
      λ c1 e.
        Raises-from c1 c _ e
          (continue_election-Raises st env time c1 (rw (current_epoch-frame c c1 e) h))

handle_slave_failover-Raises :
    (st : Settings) (env : Surroundings) (c : Cluster)
    → HasNext c.current_epoch
    → Ends (Raises c) (handle_slave_failover st env c)
unfolding handle_slave_failover log_cant_failover
handle_slave_failover-Raises st env c0 h =
    let c = record c0 { todo = record c0.todo { handle_failover = false } } in
    Raises-from c c0 _ (frame-record c c0 refl) (
      Ends-if (Raises c) (is_needless c) (done (log_cant_failover no_reason c)) _
        (Raises-frame c _ (frame-record _ c refl))
        (Ends-if (Raises c) (is_data_old st env && not (is_manual c))
          (done (log_cant_failover data_age c)) _ (Raises-frame c _ (frame-record _ c refl))
          (Ends-if (Raises c) (ltb (c.election.time + auth_timeout st * 2) env.now)
            (schedule_election env c) (run_election st env c.election.time c)
            (Raises-quiet c (schedule_election env c) (frame-schedule_election env c))
            (run_election-Raises st env c.election.time c h))))

-- What ends well is what the run returns.
Ends-done {ℓ κ} :
    {A : Type ℓ} (Q : A → Type κ) (o : Outcome A) (a : A) → o ≡ done a → Ends Q o → Q a
Ends-done Q o a e q = subst (Ends Q) e q

module _ (norm_ip : Bytes → Option Bytes) (same_ip : Bytes → Bytes → Bool)
    (alloc : Cluster → ℕ × Bytes) where
  -- What may happen to a node that does not stop: a packet, the cron's part for a slave, the
  -- evaluation of the cluster's state, and a new epoch of its own.
  pub data Step : Cluster → Cluster → Type 0 where
    packet :
        (st : Settings) (z : Sizes) (arr : Arrival) (msg : Message) {c c' : Cluster} {b : Bool}
        → HasNext msg.current_epoch
        → process_packet norm_ip same_ip alloc st z arr msg c ≡ done (c', b)
        → Step c c'
    failover :
        (st : Settings) (env : Surroundings) {c c' : Cluster}
        → handle_slave_failover st env c ≡ done c'
        → Step c c'
    state : (st : Settings) (now : ℕ) (c : Cluster) → Step c (update_state st now c)
    bump : (c : Cluster) → Step c (bump_config_epoch c).0

  -- A sequence of steps, none from the last epoch that a `uint64_t` holds.
  pub data Reaches : Cluster → Cluster → Type 0 where
    start : (c : Cluster) → Reaches c c
    next : {a b c : Cluster} → Reaches a b → HasNext b.current_epoch → Step b c → Reaches a c

  Step-VotesOnce : (b c : Cluster) → Step b c → HasNext b.current_epoch → VotesOnce b → VotesOnce c
  Step-VotesOnce b c (packet st z arr msg {b = x} below e) n h =
      Ends-done (λ r. VotesOnce r.0) _ (c, x) e
        (process_packet-VotesOnce norm_ip same_ip alloc st z arr msg b n below h)
  Step-VotesOnce b c (failover st env e) n h =
      Raises-VotesOnce b c (Ends-done (Raises b) _ c e (handle_slave_failover-Raises st env b n)) h
  Step-VotesOnce _ _ (state st now b) n h =
      Raises-VotesOnce b _ (Raises-frame b _ (frame-update_state st now b)) h
  Step-VotesOnce _ _ (bump b) n h = Raises-VotesOnce b _ (bump_config_epoch-Raises b n) h

  Reaches-VotesOnce : (a b : Cluster) → Reaches a b → VotesOnce a → VotesOnce b
  Reaches-VotesOnce _ _ (start a) h = h
  Reaches-VotesOnce a c (next {b = b} r n s) h = Step-VotesOnce b c s n (Reaches-VotesOnce a b r h)

  -- From a state in which no vote was sent and the epoch of the last vote is not beyond the current
  -- one, whatever sequence of packets, elections, evaluations of the state and new epochs follows,
  -- at most one vote is sent in each epoch, as long as no step starts in the last epoch that a
  -- `uint64_t` holds and no packet carries it.
  pub Reaches-once :
      (a b : Cluster)
      → sent_votes a.events ≡ []
      → a.last_vote_epoch ≤ a.current_epoch
      → Reaches a b
      → (e : ℕ) → count_of e (sent_votes b.events) ≤ 1
  unfolding count_of
  Reaches-once a b none_yet last r e = (Reaches-VotesOnce a b r first).once e
    where
      first : VotesOnce a
      first = record {
        once = λ k. rw none_yet (omega arith);
        past = λ k lt. rw none_yet refl;
        last = last;
      }
