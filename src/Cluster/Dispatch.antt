-- ===== src/Cluster/Dispatch.antt =====
-- examples/cluster.c: `clusterProcessPacket`, a packet from its checks to its effects.
use weggli_enhance.Common.{
  ℕ, ◌+◌, ◌*◌, Bool, true, false, not, ◌&&◌, ◌||◌, Option, none, some, nat_beq, leb, if◌then◌else◌,
  Outcome, done, ◌>>=◌,
}
use weggli_enhance.Text.{Bytes}
use weggli_enhance.Cluster.State.{
  Cluster, published, paused_clients, put_node, emit, points_to, save_and_sync, save_and_update,
  node_is_master, node_is_slave,
}
use weggli_enhance.Cluster.Reports.{Settings}
use weggli_enhance.Cluster.Nodes.{lookup_node}
use weggli_enhance.Cluster.Roles.{reset_manual_failover, set_node_as_master}
use weggli_enhance.Cluster.Gossip.{process_gossip_section}
use weggli_enhance.Cluster.Rebind.{update_slots_config_with}
use weggli_enhance.Cluster.Votes.{send_failover_auth_if_needed}
use weggli_enhance.Cluster.Packet.{
  ping, pong, meet_msg, fail_msg, publish, auth_request, auth_ack, update, mfstart, unknown,
  Message, Sizes, Arrival, is_sane, sender_epochs, note_sender,
}
use weggli_enhance.Cluster.Pings.{answer_ping, settle_link, note_ping, note_pong, gossip_sender}
use weggli_enhance.Cluster.Configs.{switch_role, update_claims}

-- FAIL: another node says that a node has failed.
unfoldable pub process_fail : ℕ → Message → Option ℕ → Cluster → Cluster
process_fail now msg none c = c
process_fail now msg (some s) c = elim (lookup_node msg.failing c) [
  | none ↦ c
  | some p ↦
      let n = c.heap p in
      if n.flags.fail || n.flags.myself
      then c
      else save_and_update (
          put_node p
            (record n { flags = record n.flags { fail = true; pfail = false }; fail_time = now }) c)
]

-- FAILOVER_AUTH_REQUEST
unfoldable pub process_auth_request : Settings → ℕ → Message → Option ℕ → Cluster → Cluster
process_auth_request st now msg none c = c
process_auth_request st now msg (some s) c =
    send_failover_auth_if_needed st now s
      (record {
        current_epoch = msg.current_epoch;
        config_epoch = msg.config_epoch;
        claimed_slots = msg.myslots;
        force_ack = msg.force_ack;
      })
      c

-- FAILOVER_AUTH_ACK: the vote of a master with slots for this epoch counts.
unfoldable pub process_auth_ack : ℕ → Option ℕ → Cluster → Cluster
process_auth_ack epoch none c = c
process_auth_ack epoch (some s) c =
    let n = c.heap s in
    if node_is_master n && not (nat_beq n.numslots 0) && leb c.election.epoch epoch
    then record c {
      election = record c.election { count = c.election.count + 1 };
      todo = record c.todo { handle_failover = true };
    }
    else c

-- MFSTART: a slave of this node starts a manual failover.
unfoldable pub process_mfstart : Arrival → Option ℕ → Cluster → Cluster
process_mfstart arr none c = c
process_mfstart arr (some s) c =
    if not (points_to (c.heap s).slaveof c.myself)
    then c
    else let c1 = reset_manual_failover arr.clients_paused c in
      emit (paused_clients (arr.now + arr.mf_timeout * 2))
        (record c1 { manual = record c1.manual { end = arr.now + arr.mf_timeout; slave = some s } })

-- UPDATE: another node tells of a newer configuration of a node.
unfoldable pub process_update : Arrival → Message → Option ℕ → Cluster → Outcome Cluster
process_update arr msg none c = done c
process_update arr msg (some s) c = elim (lookup_node msg.about c) [
  | none ↦ done c
  | some p ↦ elim (leb msg.about_epoch (c.heap p).config_epoch) [
    | true ↦ done c
    | false ↦
        let c1 = if node_is_slave (c.heap p) then set_node_as_master p c else c in
        update_slots_config_with arr.keys arr.clients_paused p msg.about_epoch msg.about_slots
          (save_and_sync (put_node p (record (c1.heap p) { config_epoch = msg.about_epoch }) c1))
  ]
]

module _ (norm_ip : Bytes → Option Bytes) (same_ip : Bytes → Bytes → Bool)
    (alloc : Cluster → ℕ × Bytes) where
  -- What the sender of a PING, PONG or MEET says of itself and of others, where it is known.
  unfoldable pub process_claims :
      Settings → Arrival → Message → ℕ → Option ℕ → Cluster → Outcome Cluster
  unfolding switch_role update_claims
  process_claims st arr msg epoch none c = done c
  process_claims st arr msg epoch (some s) c = do
    c1 ← switch_role arr msg s c
    c2 ← update_claims st arr msg epoch s c1
    done (
        process_gossip_section norm_ip same_ip alloc st arr.now arr.unixtime
          (gossip_sender arr (lookup_node msg.sender c2)) msg.gossip c2)

  -- A PING, PONG or MEET. The Boolean is the result: whether the link is still there.
  unfoldable pub process_ping :
      Settings → Arrival → Message → ℕ → Option ℕ → Cluster → Outcome (Cluster × Bool)
  unfolding answer_ping settle_link note_ping note_pong process_claims
  process_ping st arr msg epoch sender c = do
    (c1, goes_on) ←
        settle_link st arr msg sender (answer_ping norm_ip same_ip alloc st arr msg sender c)
    elim goes_on [
      | false ↦ done (c1, false)
      | true ↦ do
        c2 ← note_pong st arr msg (note_ping arr msg sender c1)
        c3 ← process_claims st arr msg epoch sender c2
        done (c3, true)
    ]

  -- A packet that passed the checks, by its type.
  unfoldable pub dispatch :
      Settings → Arrival → Message → ℕ × ℕ → Option ℕ → Cluster → Outcome (Cluster × Bool)
  unfolding process_ping process_fail process_auth_request process_auth_ack process_mfstart
      process_update
  dispatch st arr msg (current, config) sender c = elim msg.kind [
    | ping ↦ process_ping st arr msg config sender c
    | pong ↦ process_ping st arr msg config sender c
    | meet_msg ↦ process_ping st arr msg config sender c
    | fail_msg ↦ done (process_fail arr.now msg sender c, true)
    | publish ↦
        done (if arr.has_subscribers then emit (published msg.channel msg.message) c else c, true)
    | auth_request ↦ done (process_auth_request st arr.now msg sender c, true)
    | auth_ack ↦ done (process_auth_ack current sender c, true)
    | mfstart ↦ done (process_mfstart arr sender c, true)
    | update ↦ do c1 ← process_update arr msg sender c; done (c1, true)
    | unknown ↦ done (c, true)
  ]

  -- `clusterProcessPacket`
  unfoldable pub process_packet :
      Settings → Sizes → Arrival → Message → Cluster → Outcome (Cluster × Bool)
  unfolding is_sane sender_epochs note_sender dispatch
  process_packet st z arr msg c = elim (is_sane z arr msg) [
    | false ↦ done (c, true)
    | true ↦
        let sender = lookup_node msg.sender c in
        dispatch st arr msg (sender_epochs msg sender c) sender (note_sender arr.now msg sender c)
  ]
