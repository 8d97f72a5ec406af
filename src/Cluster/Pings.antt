-- ===== src/Cluster/Pings.antt =====
-- examples/cluster.c: what `clusterProcessPacket` does with the addresses and the names of a PING,
-- PONG or MEET. The allocator with its random names is the parameter `alloc`.
use weggli_enhance.Common.{
  ℕ, Bool, true, false, not, ◌&&◌, ◌||◌, [], ◌∷◌, Option, none, some, if◌then◌else◌, bytes_beq,
  Outcome, done, ◌>>=◌,
}
use weggli_enhance.Text.{Bytes}
use weggli_enhance.Cluster.State.{
  no_flags, Cluster, closed_link, sent_pong, put_node, emit, save, save_and_update,
  node_in_handshake, node_timed_out, node_failed,
}
use weggli_enhance.Cluster.Reports.{Settings}
use weggli_enhance.Cluster.Nodes.{create_node, add_node, del_node, rename_node}
use weggli_enhance.Cluster.Failing.{clear_node_failure_if_needed}
use weggli_enhance.Cluster.Handshake.{update_address_if_needed}
use weggli_enhance.Cluster.Gossip.{process_gossip_section}
use weggli_enhance.Cluster.Packet.{Kind, ping, pong, meet_msg, Message, Arrival, node_ip}

abbrev pub is_ping : Kind → Bool
is_ping k = elim k [ ping ↦ true | other ↦ false ]

abbrev pub is_pong : Kind → Bool
is_pong k = elim k [ pong ↦ true | other ↦ false ]

abbrev pub is_meet : Kind → Bool
is_meet k = elim k [ meet_msg ↦ true | other ↦ false ]

abbrev pub is_empty : Bytes → Bool
is_empty s = elim s [ [] ↦ true | b ∷ bs ↦ false ]

-- The address of this node, from the socket of a MEET, or of a PING where there is none.
unfoldable pub update_own_address : Arrival → Message → Cluster → Cluster
update_own_address arr msg c =
    let me = c.heap c.myself in
    if (is_meet msg.kind || is_empty me.ip) && not arr.announces_ip
    then elim arr.socket_ip [
      | none ↦ c
      | some ip ↦
          if bytes_beq ip me.ip then c else save (put_node c.myself (record me { ip = ip }) c)
    ]
    else c

-- The new node of a MEET, at the address `p` under the name that is drawn.
unfoldable pub add_met : ℕ → Bytes → Arrival → Message → Cluster → Cluster
add_met p drawn arr msg c =
    let n = record (create_node arr.now drawn (record no_flags { handshake = true })) {
      ip = node_ip arr msg;
      port = msg.port;
      cport = msg.cport;
    } in
    save (add_node p (put_node p n c)).0

-- `link->node ? link->node : clusterLookupNode(hdr->sender)`
abbrev pub gossip_sender : Arrival → Option ℕ → Option ℕ
gossip_sender arr sender = elim arr.link_node [ none ↦ sender | some n ↦ some n ]

module _ (norm_ip : Bytes → Option Bytes) (same_ip : Bytes → Bytes → Bool)
    (alloc : Cluster → ℕ × Bytes) where
  -- A MEET of an unknown node is trusted.
  unfoldable pub process_meet : Settings → Arrival → Message → Option ℕ → Cluster → Cluster
  unfolding add_met
  process_meet st arr msg sender c = elim sender [
    | some p ↦ c
    | none ↦
        if not (is_meet msg.kind)
        then c
        else let (p, drawn) = alloc c in
          process_gossip_section norm_ip same_ip alloc st arr.now arr.unixtime
            (gossip_sender arr none) msg.gossip (add_met p drawn arr msg c)
  ]

  -- The first part for PING and MEET, which are answered by a PONG.
  unfoldable pub answer_ping : Settings → Arrival → Message → Option ℕ → Cluster → Cluster
  unfolding update_own_address process_meet
  answer_ping st arr msg sender c =
      if is_ping msg.kind || is_meet msg.kind
      then emit (sent_pong arr.link) (process_meet st arr msg sender (update_own_address arr msg c))
      else c

-- The update of the address of a sender that is known.
unfoldable pub update_sender_address : Arrival → Message → ℕ → Cluster → Cluster
unfolding update_address_if_needed
update_sender_address arr msg s c =
    let (c1, moved) = update_address_if_needed s arr.link (node_ip arr msg) msg.port msg.cport c in
    if moved then save_and_update c1 else c1

-- The handshake of the link's node is over.
unfoldable pub complete_handshake : Message → ℕ → Cluster → Outcome Cluster
unfolding rename_node
complete_handshake msg n c = do
  c1 ← rename_node n msg.sender c
  let m = c1.heap n
  done (
      save (
        put_node n
          (record m {
            flags = record m.flags {
              handshake = false;
              master = m.flags.master || msg.flags.master;
              slave = m.flags.slave || msg.flags.slave;
            };
          })
          c1))

-- The link's node answers under another name: it loses its address and the link.
unfoldable pub drop_address : Arrival → ℕ → Cluster → Cluster
drop_address arr n c =
    let m = c.heap n in
    save (
      emit (closed_link arr.link) (
        put_node n
          (record m {
            flags = record m.flags { noaddr = true };
            ip = [];
            port = 0;
            cport = 0;
            link = none;
          })
          c))

-- The checks of the link's node. The Boolean says that the packet is processed further.
unfoldable pub settle_link :
    Settings → Arrival → Message → Option ℕ → Cluster → Outcome (Cluster × Bool)
unfolding update_sender_address complete_handshake drop_address
settle_link st arr msg sender c = elim arr.link_node [
  | none ↦ done (c, true)
  | some n ↦ elim (node_in_handshake (c.heap n)) [
    | true ↦ elim sender [
      | some s ↦ do c1 ← del_node st arr.now n (update_sender_address arr msg s c); done (c1, false)
      | none ↦ do c1 ← complete_handshake msg n c; done (c1, true)
    ]
    | false ↦
        if bytes_beq (c.heap n).name msg.sender
        then done (c, true)
        else done (drop_address arr n c, false)
  ]
]

-- A PING of a known node, whose handshake is over, updates its address.
unfoldable pub note_ping : Arrival → Message → Option ℕ → Cluster → Cluster
unfolding update_sender_address
note_ping arr msg none c = c
note_ping arr msg (some s) c =
    if is_ping msg.kind && not (node_in_handshake (c.heap s))
    then update_sender_address arr msg s c
    else c

-- A PONG of the link's node.
unfoldable pub note_pong : Settings → Arrival → Message → Cluster → Outcome Cluster
note_pong st arr msg c = elim arr.link_node [
  | none ↦ done c
  | some n ↦
      if not (is_pong msg.kind)
      then done c
      else let c1 = put_node n (record (c.heap n) { pong_received = arr.now; ping_sent = 0 }) c in
        let m = c1.heap n in
        if node_timed_out m
        then done (
            save_and_update (put_node n (record m { flags = record m.flags { pfail = false } }) c1))
        else if node_failed m
        then clear_node_failure_if_needed st arr.now n c1
        else done c1
]
