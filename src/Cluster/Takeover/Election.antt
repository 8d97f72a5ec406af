-- ===== src/Cluster/Takeover/Election.antt =====
-- examples/cluster.c: `clusterHandleSlaveFailover` in an election that the slave has the votes for.
use weggli_enhance.Common.{
  ℕ, ◌+◌, ◌*◌, ◌<◌, ◌≤◌, ◌≡◌, ◌≢◌, refl, sym, subst, ap, ◌∙◌, Bool, true, false, not, ◌&&◌, ◌||◌,
  Option, some, arith, nat_beq, ltb, if◌then◌else◌, done, Bool-cases, inl, inr, ◌>>=◌,
}
use weggli_enhance.Cluster.State.{Cluster, cluster_slots, put_node}
use weggli_enhance.Cluster.Reports.{Settings}
use weggli_enhance.Cluster.Table.Agreement.{AgreesTable, at_put}
use weggli_enhance.Cluster.Failing.{needed_quorum}
use weggli_enhance.Cluster.Roles.Table.{KeepsTable, KeepsTable-put, KeepsTable-AgreesTable}
use weggli_enhance.Cluster.Failover.{
  Surroundings, auth_timeout, is_data_old, is_manual, is_needless, update_rank, count_votes,
  continue_election, run_election, replace_your_master, handle_slave_failover,
}
use weggli_enhance.Cluster.Takeover.Master.{replace_your_master-AgreesTable}

-- A slave of the failed master `m` with slots, whose data is recent, has asked for votes, has a
-- majority of them, and is in time.
pub record Elected (st : Settings) (env : Surroundings) (m : ℕ) (c : Cluster) : Type 0 where
  pub slave : (c.heap c.myself).flags.master ≡ false
  pub follows : (c.heap c.myself).slaveof ≡ some m
  pub failed : (c.heap m).flags.fail ≡ true
  pub serves : (c.heap m).numslots ≢ 0
  pub fresh : is_data_old st env ≡ false
  pub asked : c.election.sent ≡ true
  pub begun : c.election.time ≤ env.now
  pub in_time : env.now ≤ c.election.time + auth_timeout st
  pub majority : c.size < 2 * c.election.count

-- The node takes the epoch of the election, where its own is smaller.
abbrev adopt_epoch : Cluster → Cluster
adopt_epoch c =
    let me = c.heap c.myself in
    if ltb me.config_epoch c.election.epoch
    then put_node c.myself (record me { config_epoch = c.election.epoch }) c
    else c

needed : (f b : Bool) (n : ℕ) → f ≡ true → n ≢ 0 → not f && b || nat_beq n 0 ≡ false
needed f b n e h = ground (arith, e, h)

chosen {ℓ} : {A : Type ℓ} (a b : Bool) (x y : A) → a ≡ true → (if a || b then x else y) ≡ x
chosen true b x y e = refl
chosen false b x y e = absurd (ground (arith, e))

module _ (st : Settings) (env : Surroundings) (m : ℕ) (c : Cluster) (h : Elected st env m c) where
  -- The state in which the function works.
  abbrev begun_state : Cluster
  begun_state = record c { todo = record c.todo { handle_failover = false } }

  not-needless : is_needless begun_state ≡ false
  unfolding is_needless
  not-needless =
      rw (h.slave, is_needless)
        (rw h.follows
          (needed (c.heap m).flags.fail (not (is_manual c)) (c.heap m).numslots h.failed h.serves))

  counts : count_votes st env begun_state ≡ replace_your_master st env (adopt_epoch begun_state)
  unfolding count_votes
  counts =
      let enough : ltb c.election.count (needed_quorum c.size) ≡ false =
        ground (arith, h.majority) in
      rw (enough, count_votes) refl

  continues : continue_election st env c.election.time begun_state ≡ count_votes st env begun_state
  unfolding continue_election
  continues =
      let due : ltb env.now c.election.time ≡ false = ground (arith, h.begun) in
      let valid : ltb (c.election.time + auth_timeout st) env.now ≡ false =
        ground (arith, h.in_time) in
      rw (due, continue_election) (rw valid (rw h.asked refl))

  -- The rank is not asked for once the votes are.
  updates : update_rank env begun_state ≡ done begun_state
  unfolding update_rank
  updates = chosen c.election.sent (not (nat_beq c.manual.end 0)) (done begun_state) _ h.asked

  runs :
      run_election st env c.election.time begun_state
      ≡ continue_election st env c.election.time begun_state
  unfolding run_election
  runs = ap (λ o. o >>= λ c1. continue_election st env c.election.time c1) updates

  handles : handle_slave_failover st env c ≡ replace_your_master st env (adopt_epoch begun_state)
  unfolding handle_slave_failover
  handles =
      let recent : ltb (c.election.time + auth_timeout st * 2) env.now ≡ false =
        ground (arith, h.in_time) in
      rw (not-needless, handle_slave_failover) (rw h.fresh (rw recent (runs ∙ continues ∙ counts)))

-- The epoch of the election reaches the node, and nothing else about it changes.
record Adopts (c c' : Cluster) : Type 0 where
  table : KeepsTable c c'
  masters : (p : ℕ) → (c'.heap p).flags.master ≡ (c.heap p).flags.master
  slaveofs : (p : ℕ) → (c'.heap p).slaveof ≡ (c.heap p).slaveof
  reached : c.election.epoch ≤ (c'.heap c.myself).config_epoch

adopt_epoch-Adopts : (c : Cluster) → Adopts c (adopt_epoch c)
adopt_epoch-Adopts c =
    let me = c.heap c.myself in
    let self : nat_beq c.myself c.myself ≡ true = ground arith in
    elim (Bool-cases (ltb me.config_epoch c.election.epoch)) [
      | inr e ↦ rw e (record {
        table = record { slots = refl; myself = refl; bits = λ p. (refl, refl) };
        masters = λ p. refl;
        slaveofs = λ p. refl;
        reached = ground (arith, e);
      })
      | inl e ↦ rw e (record {
        table = KeepsTable-put c c.myself _ refl refl;
        masters =
            at_put (λ n k. k.flags.master ≡ n.flags.master) c.heap c.myself _ (λ n. refl) refl;
        slaveofs = at_put (λ n k. k.slaveof ≡ n.slaveof) c.heap c.myself _ (λ n. refl) refl;
        reached = rw self (omega arith);
      })
    ]

-- A slave that is elected, with a table that agrees with the bitmaps, becomes a master in one call:
-- under an epoch that is not before the election's, with the slots of the old master, while every
-- other slot keeps its owner and the table agrees again.
pub handle_slave_failover-wins :
    (st : Settings) (env : Surroundings) (m : ℕ) (c : Cluster)
    → Elected st env m c
    → AgreesTable c
    → (c' : Cluster) × (handle_slave_failover st env c ≡ done c')
      × AgreesTable c'
      × ((k : ℕ) → k < cluster_slots → c.slots k ≡ some m → c'.slots k ≡ some c.myself)
      × ((k : ℕ) → c.slots k ≢ some m → c'.slots k ≡ c.slots k)
      × ((c'.heap c.myself).flags.master ≡ true)
      × (c.election.epoch ≤ (c'.heap c.myself).config_epoch)
handle_slave_failover-wins st env m c h agrees =
    let b = record c { todo = record c.todo { handle_failover = false } } in
    let a = adopt_epoch b in
    let ad = adopt_epoch-Adopts b in
    let me : a.myself ≡ c.myself = ad.table.myself in
    let slots : (k : ℕ) → a.slots k ≡ c.slots k =
      λ k. ap (λ (t : ℕ → Option ℕ). t k) ad.table.slots in
    let table : AgreesTable a =
      KeepsTable-AgreesTable b a ad.table
        (record { owner = agrees.owner; counted = agrees.counted }) in
    let slave : (a.heap a.myself).flags.master ≡ false =
      ap (λ p. (a.heap p).flags.master) me ∙ ad.masters c.myself ∙ h.slave in
    let follows : (a.heap a.myself).slaveof ≡ some m =
      ap (λ p. (a.heap p).slaveof) me ∙ ad.slaveofs c.myself ∙ h.follows in
    let (c', run, good, taken, kept, master, epoch) =
      replace_your_master-AgreesTable st env a m table slave follows in
    let same_epoch : (c'.heap c.myself).config_epoch ≡ (a.heap c.myself).config_epoch =
      subst (λ p. (c'.heap p).config_epoch ≡ (a.heap p).config_epoch) me epoch in
    let reached = ad.reached in
    (
      c',
      handles st env m c h ∙ run,
      good,
      λ k lt q. taken k lt (slots k ∙ q) ∙ ap some me,
      λ k out. kept k (λ q. out (sym (slots k) ∙ q)) ∙ slots k,
      subst (λ p. (c'.heap p).flags.master ≡ true) me master,
      omega (arith, same_epoch, reached),
    )
