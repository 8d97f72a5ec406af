-- ===== src/Cluster/Handshake.antt =====
-- examples/cluster.c: handshakes with nodes at an address, and the address of a node. The C library
-- is a parameter: `norm_ip` is the address that `inet_pton` and `inet_ntop` make of a text, or none,
-- and `same_ip` is `strcasecmp(..) == 0`.
use weggli_enhance.Common.{
  ℕ, Bool, true, false, not, ◌&&◌, Option, none, some, nat_beq, leb, any, if◌then◌else◌, bytes_beq,
}
use weggli_enhance.Text.{Bytes}
use weggli_enhance.Cluster.State.{
  no_flags, Cluster, replicate, put_node, emit, points_to, node_in_handshake, node_is_slave,
}
use weggli_enhance.Cluster.Nodes.{create_node, add_node, free_link}

-- `errno` of a handshake that is not started.
pub data HandshakeError : Type 0 where
  einval eagain : HandshakeError

pub data Started : Type 0 where
  started : Cluster → Started
  refused : HandshakeError → Started

module _ (norm_ip : Bytes → Option Bytes) (same_ip : Bytes → Bytes → Bool) where
  unfoldable pub handshake_in_progress : Bytes → ℕ → ℕ → Cluster → Bool
  handshake_in_progress ip port cport c = any c.nodes λ e.
      let n = c.heap e.1 in
      node_in_handshake n && same_ip n.ip ip && nat_beq n.port port && nat_beq n.cport cport

  unfoldable pub valid_port : ℕ → Bool
  valid_port port = not (nat_beq port 0) && leb port 65535

  -- The new node is put at the address `p` under the name that is drawn.
  unfoldable pub start_handshake : ℕ → ℕ → Bytes → Bytes → ℕ → ℕ → Cluster → Started
  unfolding handshake_in_progress create_node add_node valid_port
  start_handshake now p drawn ip port cport c = elim (norm_ip ip) [
    | none ↦ refused einval
    | some normal ↦
        if not (valid_port port && valid_port cport)
        then refused einval
        else if handshake_in_progress normal port cport c
        then refused eagain
        else let n =
            record (create_node now drawn (record no_flags { handshake = true; meet = true })) {
              ip = normal;
              port = port;
              cport = cport;
            } in
          started (add_node p (put_node p n c)).0
  ]

-- `nodeUpdateAddressIfNeeded`, where `ip` is the address of the packet and `link` its link. The
-- Boolean is its result.
unfoldable pub update_address_if_needed : ℕ → ℕ → Bytes → ℕ → ℕ → Cluster → Cluster × Bool
unfolding free_link
update_address_if_needed p link ip port cport c =
    let n = c.heap p in
    if points_to n.link link
    then (c, false)
    else if nat_beq n.port port && nat_beq n.cport cport && bytes_beq ip n.ip
    then (c, false)
    else let c1 = free_link p (put_node p (record n { ip = ip; port = port; cport = cport }) c) in
      let m = c1.heap p in
      let c2 = put_node p (record m { flags = record m.flags { noaddr = false } }) c1 in
      let me = c2.heap c2.myself in
      (if node_is_slave me && points_to me.slaveof p then emit (replicate ip port) c2 else c2, true)
