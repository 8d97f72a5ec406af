-- ===== src/Cluster/Packet.antt =====
-- examples/cluster.c: a packet of the cluster bus, and the first checks of `clusterProcessPacket`. A
-- packet is given with its numbers in the host's byte order. The sizes of its parts are the
-- header's and are parameters, as is what the server and the socket know when it arrives.
use weggli_enhance.Common.{
  ℕ, ◌+◌, ◌-◌, ◌*◌, ◌%◌, ◌^◌, Bool, true, not, ◌&&◌, List, [], ◌∷◌, Option, none, some, nat_beq,
  ltb, if◌then◌else◌, length,
}
use weggli_enhance.Text.{Bytes}
use weggli_enhance.Cluster.State.{
  Flags, Cluster, put_node, points_to, save_and_sync, node_is_slave, node_in_handshake,
}
use weggli_enhance.Cluster.Gossip.{GossipEntry}

-- The types of packets, with one for all unknown numbers.
pub data Kind : Type 0 where
  ping pong meet_msg fail_msg publish auth_request auth_ack update mfstart unknown : Kind

-- `clusterMsg`. The gossip section has `count` entries; of the union `data`, the type says which
-- fields are there.
pub record Message : Type 0 where
  pub kind : Kind
  pub totlen : ℕ
  pub ver : ℕ
  pub sender : Bytes
  pub current_epoch : ℕ
  pub config_epoch : ℕ
  pub offset : ℕ
  pub flags : Flags
  pub is_paused : Bool
  pub force_ack : Bool
  pub myslots : ℕ → Bool
  pub slaveof : Bytes
  pub myip : Bytes
  pub port : ℕ
  pub cport : ℕ
  pub gossip : List GossipEntry
  pub failing : Bytes
  pub channel_len : ℕ
  pub message_len : ℕ
  pub channel : Bytes
  pub message : Bytes
  pub about : Bytes
  pub about_epoch : ℕ
  pub about_slots : ℕ → Bool

-- The sizes of the packet's parts; `header` is the size of `clusterMsg` without the union.
pub record Sizes : Type 0 where
  pub header : ℕ
  pub gossip : ℕ
  pub fail : ℕ
  pub publish : ℕ
  pub update : ℕ

-- What the server and the socket know: the bytes received, the protocol's version, the name of no
-- node, the addresses of the two ends, and the state of the clients and of the keys.
pub record Arrival : Type 0 where
  pub link : ℕ
  pub link_node : Option ℕ
  pub received : ℕ
  pub proto_ver : ℕ
  pub null_name : Bytes
  pub announces_ip : Bool
  pub socket_ip : Option Bytes
  pub peer_ip : Bytes
  pub now : ℕ
  pub unixtime : ℕ
  pub mf_timeout : ℕ
  pub clients_paused : Bool
  pub has_subscribers : Bool
  pub keys : ℕ → Bool

-- `explen`, a `uint32_t`, for the types whose length is checked.
unfoldable pub expected_length : Sizes → Message → Option ℕ
expected_length z msg = elim msg.kind [
  | ping ↦ some ((z.header + z.gossip * length msg.gossip) % 2 ^ 32)
  | pong ↦ some ((z.header + z.gossip * length msg.gossip) % 2 ^ 32)
  | meet_msg ↦ some ((z.header + z.gossip * length msg.gossip) % 2 ^ 32)
  | fail_msg ↦ some ((z.header + z.fail) % 2 ^ 32)
  | publish ↦ some ((z.header + (z.publish - 8 + msg.channel_len + msg.message_len)) % 2 ^ 32)
  | auth_request ↦ some (z.header % 2 ^ 32)
  | auth_ack ↦ some (z.header % 2 ^ 32)
  | mfstart ↦ some (z.header % 2 ^ 32)
  | update ↦ some ((z.header + z.update) % 2 ^ 32)
  | unknown ↦ none
]

-- The packet passes the sanity checks.
unfoldable pub is_sane : Sizes → Arrival → Message → Bool
unfolding expected_length
is_sane z arr msg =
    not (ltb msg.totlen 16)
    && not (ltb arr.received msg.totlen)
    && nat_beq msg.ver arr.proto_ver
    && elim (expected_length z msg) [ none ↦ true | some n ↦ nat_beq msg.totlen n ]

-- `senderCurrentEpoch` and `senderConfigEpoch`
unfoldable pub sender_epochs : Message → Option ℕ → Cluster → ℕ × ℕ
sender_epochs msg none c = (0, 0)
sender_epochs msg (some p) c =
    if node_in_handshake (c.heap p) then (0, 0) else (msg.current_epoch, msg.config_epoch)

-- The offset of a paused master, for the manual failover of its slave.
unfoldable pub note_offset : Message → ℕ → Cluster → Cluster
note_offset msg p c =
    let me = c.heap c.myself in
    if not (nat_beq c.manual.end 0)
      && node_is_slave me
      && points_to me.slaveof p
      && msg.is_paused
      && nat_beq c.manual.master_offset 0
    then record c { manual = record c.manual { master_offset = (c.heap p).repl_offset } }
    else c

-- The epochs and the offset of a sender that is known.
unfoldable pub note_sender : ℕ → Message → Option ℕ → Cluster → Cluster
unfolding note_offset
note_sender now msg none c = c
note_sender now msg (some p) c =
    if node_in_handshake (c.heap p)
    then c
    else let c1 =
        if ltb c.current_epoch msg.current_epoch
        then record c { current_epoch = msg.current_epoch }
        else c in
      let n = c1.heap p in
      let c2 =
        if ltb n.config_epoch msg.config_epoch
        then save_and_sync (put_node p (record n { config_epoch = msg.config_epoch }) c1)
        else c1 in
      let c3 =
        put_node p (record (c2.heap p) { repl_offset = msg.offset; repl_offset_time = now }) c2 in
      note_offset msg p c3

-- `nodeIp2String`
unfoldable pub node_ip : Arrival → Message → Bytes
node_ip arr msg = elim msg.myip [ [] ↦ arr.peer_ip | b ∷ bs ↦ msg.myip ]
