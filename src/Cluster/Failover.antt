-- ===== src/Cluster/Failover.antt =====
-- examples/cluster.c: how a slave takes the place of its failed master. The replication's state, the
-- clock and the random number are parameters. A difference of times is compared with the terms
-- moved to the other side, so that it is never negative.
use weggli_enhance.Common.{
  ℕ, ◌+◌, ◌-◌, ◌*◌, ◌%◌, Bool, true, false, not, ◌&&◌, ◌||◌, List, [], ◌∷◌, none, some, nat_beq,
  ltb, if◌then◌else◌, Outcome, done, panic, ◌>>=◌,
}
use weggli_enhance.Cluster.State.{
  Cluster, Reason, no_reason, data_age, waiting_delay, expired, waiting_votes,
  requested_failover_auth, broadcast_pong, saved_config, stopped_replication, put_node, emit,
  increment, save_update_and_sync, node_is_master, node_is_slave, node_failed,
}
use weggli_enhance.Cluster.Reports.{Settings}
use weggli_enhance.Cluster.Table.{all_slots, add_slot, del_slot}
use weggli_enhance.Cluster.Failing.{needed_quorum}
use weggli_enhance.Cluster.Roles.{reset_manual_failover, set_node_as_master}
use weggli_enhance.Cluster.Health.{update_state}

-- What the function asks outside of the cluster's state.
pub record Surroundings : Type 0 where
  pub now : ℕ
  pub unixtime : ℕ
  pub random : ℕ
  pub clients_paused : Bool
  pub is_connected : Bool
  pub last_interaction : ℕ
  pub repl_down_since : ℕ
  pub slave_offset : ℕ

-- The slaves, but this one, with a better offset.
unfoldable pub count_better : ℕ → Cluster → List ℕ → ℕ
count_better offset c [] = 0
count_better offset c (s ∷ ss) =
    let rest = count_better offset c ss in
    if not (nat_beq s c.myself) && ltb offset (c.heap s).repl_offset then rest + 1 else rest

-- `clusterGetSlaveRank`, which asserts that this node is a slave.
unfoldable pub get_slave_rank : ℕ → Cluster → Outcome ℕ
unfolding count_better
get_slave_rank offset c =
    let me = c.heap c.myself in
    if node_is_slave me
    then elim me.slaveof [ none ↦ done 0 | some m ↦ done (count_better offset c (c.heap m).slaves) ]
    else panic

-- `clusterLogCantFailover`, without its log.
unfoldable pub log_cant_failover : Reason → Cluster → Cluster
log_cant_failover reason c = record c {
  election = record c.election { cant_failover_reason = reason };
}

-- The slots of the old master are claimed.
unfoldable pub claim_slots : ℕ → List ℕ → Cluster → Outcome Cluster
unfolding add_slot del_slot
claim_slots oldmaster [] c = done c
claim_slots oldmaster (j ∷ js) c = elim ((c.heap oldmaster).slots j) [
  | false ↦ claim_slots oldmaster js c
  | true ↦ do (c1, deleted) ← del_slot j c; claim_slots oldmaster js (add_slot c1.myself j c1).0
]

-- `clusterFailoverReplaceYourMaster`
unfoldable pub replace_your_master : Settings → Surroundings → Cluster → Outcome Cluster
unfolding claim_slots
replace_your_master st env c =
    if node_is_master (c.heap c.myself) then done c else elim (c.heap c.myself).slaveof [
      | none ↦ done c
      | some oldmaster ↦ do
        c1 ←
            claim_slots oldmaster all_slots
              (emit stopped_replication (set_node_as_master c.myself c))
        let c2 = emit saved_config (update_state st env.now c1)
        done (reset_manual_failover env.clients_paused (emit (broadcast_pong true) c2))
    ]

abbrev pub is_manual : Cluster → Bool
is_manual c = not (nat_beq c.manual.end 0) && c.manual.can_start

-- `MAX(NODE_TIMEOUT * 2, 2000)`
unfoldable pub auth_timeout : Settings → ℕ
auth_timeout st = let t = st.cluster_node_timeout * 2 in if ltb t 2000 then 2000 else t

-- The data is too old by the validity factor.
unfoldable pub is_data_old : Settings → Surroundings → Bool
is_data_old st env =
    let since = if env.is_connected then env.last_interaction else env.repl_down_since in
    let raw = (env.unixtime - since) * 1000 in
    let age = if ltb st.cluster_node_timeout raw then raw - st.cluster_node_timeout else raw in
    not (nat_beq st.slave_validity_factor 0)
    && ltb (st.repl_ping_slave_period * 1000 + st.cluster_node_timeout * st.slave_validity_factor)
        age

-- A new attempt is scheduled.
unfoldable pub schedule_election : Surroundings → Cluster → Outcome Cluster
unfolding get_slave_rank
schedule_election env c = do
  rank ← get_slave_rank env.slave_offset c
  let delayed = env.now + 500 + env.random % 500 + rank * 1000
  let is_manual = not (nat_beq c.manual.end 0)
  done (
      emit (broadcast_pong false) (record c {
        election = record c.election {
          time = if is_manual then env.now else delayed;
          count = 0;
          sent = false;
          rank = if is_manual then 0 else rank;
        };
      }))

-- The delay grows with the rank, until the votes are asked for.
unfoldable pub update_rank : Surroundings → Cluster → Outcome Cluster
unfolding get_slave_rank
update_rank env c = if c.election.sent || not (nat_beq c.manual.end 0) then done c else do
  newrank ← get_slave_rank env.slave_offset c
  let old = c.election.rank
  done (
      if ltb old newrank
      then record c {
        election = record c.election {
          time = c.election.time + (newrank - old) * 1000;
          rank = newrank;
        };
      }
      else c)

unfoldable pub start_election : Cluster → Cluster
start_election c =
    let epoch = increment c.current_epoch in
    let c1 = record c {
      current_epoch = epoch;
      election = record c.election { epoch = epoch; sent = true };
    } in
    save_update_and_sync (emit (requested_failover_auth epoch) c1)

-- The election is won with a majority of the votes.
unfoldable pub count_votes : Settings → Surroundings → Cluster → Outcome Cluster
unfolding replace_your_master log_cant_failover
count_votes st env c =
    if ltb c.election.count (needed_quorum c.size)
    then done (log_cant_failover waiting_votes c)
    else let me = c.heap c.myself in
      replace_your_master st env (
        if ltb me.config_epoch c.election.epoch
        then put_node c.myself (record me { config_epoch = c.election.epoch }) c
        else c)

-- The election, once its delay is known. The age of the attempt was taken from `auth_time`, before
-- the rank changed it.
unfoldable pub continue_election : Settings → Surroundings → ℕ → Cluster → Outcome Cluster
unfolding start_election count_votes auth_timeout
continue_election st env auth_time c =
    if ltb env.now c.election.time
    then done (log_cant_failover waiting_delay c)
    else if ltb (auth_time + auth_timeout st) env.now
    then done (log_cant_failover expired c)
    else if c.election.sent
    then count_votes st env c
    else done (start_election c)

unfoldable pub run_election : Settings → Surroundings → ℕ → Cluster → Outcome Cluster
unfolding update_rank continue_election
run_election st env auth_time c = do c1 ← update_rank env c; continue_election st env auth_time c1

-- There is no reason to fail over.
unfoldable pub is_needless : Cluster → Bool
is_needless c =
    let me = c.heap c.myself in
    node_is_master me || elim me.slaveof [
      | none ↦ true
      | some m ↦ not (node_failed (c.heap m)) && not (is_manual c) || nat_beq (c.heap m).numslots 0
    ]

-- `clusterHandleSlaveFailover`
unfoldable pub handle_slave_failover : Settings → Surroundings → Cluster → Outcome Cluster
unfolding is_needless is_data_old schedule_election run_election
handle_slave_failover st env c0 =
    let c = record c0 { todo = record c0.todo { handle_failover = false } } in
    if is_needless c
    then done (log_cant_failover no_reason c)
    else if is_data_old st env && not (is_manual c)
    then done (log_cant_failover data_age c)
    else if ltb (c.election.time + auth_timeout st * 2) env.now
    then schedule_election env c
    else run_election st env c.election.time c

-- `manualFailoverCheckTimeout`
unfoldable pub check_manual_timeout : Surroundings → Cluster → Cluster
check_manual_timeout env c =
    if not (nat_beq c.manual.end 0) && ltb c.manual.end env.now
    then reset_manual_failover env.clients_paused c
    else c

-- `clusterHandleManualFailover`
unfoldable pub handle_manual_failover : Surroundings → Cluster → Cluster
handle_manual_failover env c =
    if nat_beq c.manual.end 0
      || c.manual.can_start
      || nat_beq c.manual.master_offset 0
      || not (nat_beq c.manual.master_offset env.slave_offset)
    then c
    else record c { manual = record c.manual { can_start = true } }
