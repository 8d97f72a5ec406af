-- ===== src/Cluster/Gossip.antt =====
-- examples/cluster.c: the gossip section of a packet. The allocator with its random names is the
-- parameter `alloc`.
use weggli_enhance.Common.{
  ℕ, ◌+◌, ◌*◌, Bool, false, not, ◌&&◌, ◌||◌, List, [], ◌∷◌, Option, none, some, nat_beq, ltb, leb,
  if◌then◌else◌,
}
use weggli_enhance.Text.{Bytes}
use weggli_enhance.Cluster.State.{Flags, Cluster, put_node, node_is_master}
use weggli_enhance.Cluster.Reports.{
  Settings, add_failure_report, del_failure_report, failure_reports_count,
}
use weggli_enhance.Cluster.Nodes.{lookup_node, free_link}
use weggli_enhance.Cluster.Epochs.{blacklist_exists}
use weggli_enhance.Cluster.Failing.{mark_node_as_failing_if_needed}
use weggli_enhance.Cluster.Handshake.{started, refused, start_handshake}

-- `clusterMsgDataGossip`, in the host's byte order.
pub record GossipEntry : Type 0 where
  pub nodename : Bytes
  pub pong_received : ℕ
  pub ip : Bytes
  pub port : ℕ
  pub cport : ℕ
  pub flags : Flags

-- `flags & (CLUSTER_NODE_FAIL|CLUSTER_NODE_PFAIL)`
abbrev pub reports_failure : Flags → Bool
reports_failure f = f.fail || f.pfail

-- The failure report of a sender that is a master.
unfoldable pub gossip_report : Settings → ℕ → Option ℕ → Flags → ℕ → Cluster → Cluster
gossip_report st now none flags p c = c
gossip_report st now (some sender) flags p c =
    if node_is_master (c.heap sender) && not (nat_beq p c.myself)
    then if reports_failure flags
      then mark_node_as_failing_if_needed st now p (add_failure_report now p sender c).0
      else (del_failure_report st now p sender c).0
    else c

-- The time of the last pong that the sender has seen. The number of reports, whose clean-up
-- changes the state, is asked for last.
unfoldable pub gossip_pong : Settings → ℕ → ℕ → Flags → ℕ → Cluster → Cluster
gossip_pong st now pong flags p c =
    if reports_failure flags || not (nat_beq (c.heap p).ping_sent 0)
    then c
    else let (c1, reports) = failure_reports_count st now p c in
      let n = c1.heap p in
      let pongtime = pong * 1000 in
      if nat_beq reports 0 && leb pongtime (now + 500) && ltb n.pong_received pongtime
      then put_node p (record n { pong_received = pongtime }) c1
      else c1

unfoldable pub gossip_address : (Bytes → Bytes → Bool) → GossipEntry → ℕ → Cluster → Cluster
gossip_address same_ip g p c =
    let n = c.heap p in
    let moved =
      reports_failure n.flags
      && not g.flags.noaddr
      && not (reports_failure g.flags)
      && (not (same_ip n.ip g.ip)
          || not (nat_beq n.port g.port)
          || not (nat_beq n.cport g.cport)) in
    if not moved
    then c
    else let c1 = free_link p c in
      let m = c1.heap p in
      put_node p
        (record m {
          ip = g.ip;
          port = g.port;
          cport = g.cport;
          flags = record m.flags { noaddr = false };
        })
        c1

module _ (norm_ip : Bytes → Option Bytes) (same_ip : Bytes → Bytes → Bool)
    (alloc : Cluster → ℕ × Bytes) where
  -- A node that is not known: a handshake, unless it was forgotten.
  unfoldable pub gossip_unknown : ℕ → ℕ → Option ℕ → GossipEntry → Cluster → Cluster
  gossip_unknown now unixtime none g c = c
  gossip_unknown now unixtime (some sender) g c =
      if g.flags.noaddr
      then c
      else let (c1, listed) = blacklist_exists unixtime g.nodename c in
        let (p, drawn) = alloc c1 in
        if listed
        then c1
        else elim (start_handshake norm_ip same_ip now p drawn g.ip g.port g.cport c1) [
          | started c2 ↦ c2
          | refused e ↦ c1
        ]

  -- The body of the loop of `clusterProcessGossipSection`.
  unfoldable pub process_gossip_entry :
      Settings → ℕ → ℕ → Option ℕ → GossipEntry → Cluster → Cluster
  unfolding gossip_report gossip_pong gossip_address gossip_unknown
  process_gossip_entry st now unixtime sender g c = elim (lookup_node g.nodename c) [
    | none ↦ gossip_unknown now unixtime sender g c
    | some p ↦
        gossip_address same_ip g p
          (gossip_pong st now g.pong_received g.flags p (gossip_report st now sender g.flags p c))
  ]

  unfoldable pub process_gossip_section :
      Settings → ℕ → ℕ → Option ℕ → List GossipEntry → Cluster → Cluster
  unfolding process_gossip_entry
  process_gossip_section st now unixtime sender [] c = c
  process_gossip_section st now unixtime sender (g ∷ gs) c =
      process_gossip_section st now unixtime sender gs
        (process_gossip_entry st now unixtime sender g c)
