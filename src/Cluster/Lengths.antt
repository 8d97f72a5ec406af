-- ===== src/Cluster/Lengths.antt =====
-- examples/cluster.c: the length checks at the start of `clusterProcessPacket`.
use weggli_enhance.Common.{ℕ, ◌+◌, ◌-◌, ◌*◌, length}
use weggli_enhance.Cluster.Packet.{
  ping, pong, meet_msg, fail_msg, publish, auth_request, auth_ack, update, mfstart, unknown,
  Message, Sizes,
}

-- The end of the parts that belong to a packet of this type, without the wrap-around of a `uint32_t`.
unfoldable pub end_of_parts : Sizes → Message → ℕ
end_of_parts z msg = elim msg.kind [
  | ping ↦ z.header + z.gossip * length msg.gossip
  | pong ↦ z.header + z.gossip * length msg.gossip
  | meet_msg ↦ z.header + z.gossip * length msg.gossip
  | fail_msg ↦ z.header + z.fail
  | publish ↦ z.header + (z.publish - 8 + msg.channel_len + msg.message_len)
  | auth_request ↦ z.header
  | auth_ack ↦ z.header
  | mfstart ↦ z.header
  | update ↦ z.header + z.update
  | unknown ↦ 0
]
