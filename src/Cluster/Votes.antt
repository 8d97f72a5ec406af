-- ===== src/Cluster/Votes.antt =====
-- examples/cluster.c: `clusterSendFailoverAuthIfNeeded`, by which a master votes for a slave.
use weggli_enhance.Common.{
  ℕ, ◌+◌, ◌*◌, Bool, false, not, ◌&&◌, ◌||◌, List, none, some, nat_beq, ltb, any, if◌then◌else◌,
}
use weggli_enhance.Cluster.State.{
  Cluster, sent_failover_auth, put_node, emit, node_is_master, node_is_slave, node_failed,
}
use weggli_enhance.Cluster.Reports.{Settings}
use weggli_enhance.Cluster.Table.{all_slots}

-- What the packet of a request says, in the host's byte order.
pub record AuthRequest : Type 0 where
  pub current_epoch : ℕ
  pub config_epoch : ℕ
  pub claimed_slots : ℕ → Bool
  pub force_ack : Bool

-- Some slot that the slave claims is served by a node with a greater epoch.
unfoldable pub is_served_newer : AuthRequest → Cluster → List ℕ → Bool
is_served_newer req c js = any js λ j. req.claimed_slots j && elim (c.slots j) [
  | none ↦ false
  | some owner ↦ ltb req.config_epoch (c.heap owner).config_epoch
]

-- `clusterSendFailoverAuth`: nothing is sent to a node without a link.
unfoldable pub send_failover_auth : ℕ → Cluster → Cluster
send_failover_auth p c = elim (c.heap p).link [
  | none ↦ c
  | some l ↦ emit (sent_failover_auth p c.current_epoch) c
]

-- The vote for the slave `p` of the master `m`.
unfoldable pub grant_vote : ℕ → ℕ → ℕ → Cluster → Cluster
unfolding send_failover_auth
grant_vote now p m c =
    let c1 = send_failover_auth p c in
    put_node m (record (c1.heap m) { voted_time = now })
      (record c1 { last_vote_epoch = c1.current_epoch })

-- The tests of the request that do not follow the master's pointer.
unfoldable pub may_vote : AuthRequest → Cluster → Bool
may_vote req c =
    let me = c.heap c.myself in
    not (node_is_slave me || nat_beq me.numslots 0)
    && not (ltb req.current_epoch c.current_epoch)
    && not (nat_beq c.last_vote_epoch c.current_epoch)

unfoldable pub send_failover_auth_if_needed : Settings → ℕ → ℕ → AuthRequest → Cluster → Cluster
unfolding is_served_newer grant_vote may_vote all_slots
send_failover_auth_if_needed st now p req c =
    if not (may_vote req c) then c else elim (c.heap p).slaveof [
      | none ↦ c
      | some m ↦
          if node_is_master (c.heap p)
            || not (node_failed (c.heap m)) && not req.force_ack
            || ltb now ((c.heap m).voted_time + st.cluster_node_timeout * 2)
            || is_served_newer req c all_slots
          then c
          else grant_vote now p m c
    ]
