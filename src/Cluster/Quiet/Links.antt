-- ===== src/Cluster/Quiet/Links.antt =====
-- examples/cluster.c: what a PING, PONG or MEET does to names and addresses, the epochs and the
-- votes.
use weggli_enhance.Common.{
  ℕ, ◌≡◌, refl, ◌∙◌, Bool, true, not, ◌&&◌, ◌||◌, [], Option, none, some, bytes_beq, Bool-cases,
  Option-cases, inl, inr,
}
use weggli_enhance.Text.{Bytes}
use weggli_enhance.Cluster.State.{
  no_flags, Cluster, closed_link, sent_pong, put_node, emit, save, save_and_update,
  node_in_handshake, node_timed_out, node_failed,
}
use weggli_enhance.Cluster.Reports.{Settings}
use weggli_enhance.Cluster.Nodes.{create_node, add_node, del_node, rename_node}
use weggli_enhance.Cluster.Handshake.{update_address_if_needed}
use weggli_enhance.Cluster.Packet.{Message, Arrival, node_ip}
use weggli_enhance.Cluster.Pings.{
  is_ping, is_pong, is_meet, is_empty, update_own_address, add_met, gossip_sender, process_meet,
  answer_ping, update_sender_address, complete_handshake, drop_address, settle_link, note_ping,
  note_pong,
}
use weggli_enhance.Cluster.Quiet.{
  frame, sent_votes, frame-emit, frame-record, if-same, Ends-bind, Quietly, Quietly-from,
  Quietly-bind,
}
use weggli_enhance.Cluster.Quiet.Nodes.{
  frame-add_node, frame-rename_node, frame-update_address_if_needed,
  frame-clear_node_failure_if_needed,
}
use weggli_enhance.Cluster.Quiet.Slots.{QuietlyWith, frame-del_node}
use weggli_enhance.Cluster.Quiet.Gossips.{frame-process_gossip_section}

frame-update_own_address :
    (arr : Arrival) (msg : Message) (c : Cluster) → frame (update_own_address arr msg c) ≡ frame c
unfolding update_own_address
frame-update_own_address arr msg c =
    let me = c.heap c.myself in
    elim (Bool-cases ((is_meet msg.kind || is_empty me.ip) && not arr.announces_ip)) [
      | inr e ↦ rw (e, update_own_address) refl
      | inl e ↦ elim (Option-cases arr.socket_ip) [
        | inl f ↦ rw (e, update_own_address) (rw f refl)
        | inr (ip, f) ↦
            rw (e, update_own_address)
              (rw f (
                if-same frame (bytes_beq ip me.ip) c
                  (save (put_node c.myself (record me { ip = ip }) c)) _ refl
                  (frame-record _ c refl)))
      ]
    ]

frame-add_met :
    (p : ℕ) (drawn : Bytes) (arr : Arrival) (msg : Message) (c : Cluster)
    → frame (add_met p drawn arr msg c) ≡ frame c
unfolding add_met
frame-add_met p drawn arr msg c =
    let n = record (create_node arr.now drawn (record no_flags { handshake = true })) {
      ip = node_ip arr msg;
      port = msg.port;
      cport = msg.cport;
    } in
    frame-record (save (add_node p (put_node p n c)).0) (add_node p (put_node p n c)).0 refl
    ∙ frame-add_node p (put_node p n c)
    ∙ frame-record (put_node p n c) c refl

module _ (norm_ip : Bytes → Option Bytes) (same_ip : Bytes → Bytes → Bool)
    (alloc : Cluster → ℕ × Bytes) where
  frame-process_meet :
      (st : Settings) (arr : Arrival) (msg : Message) (sender : Option ℕ) (c : Cluster)
      → frame (process_meet norm_ip same_ip alloc st arr msg sender c) ≡ frame c
  unfolding process_meet
  frame-process_meet st arr msg (some s) c = refl
  frame-process_meet st arr msg none c =
      let (p, drawn) = alloc c in
      elim (Bool-cases (is_meet msg.kind)) [
        | inr e ↦ rw (e, process_meet) refl
        | inl e ↦
            rw (e, process_meet)
              (frame-process_gossip_section norm_ip same_ip alloc st arr.now arr.unixtime
                  (gossip_sender arr none) msg.gossip (add_met p drawn arr msg c)
                ∙ frame-add_met p drawn arr msg c)
      ]

  pub frame-answer_ping :
      (st : Settings) (arr : Arrival) (msg : Message) (sender : Option ℕ) (c : Cluster)
      → frame (answer_ping norm_ip same_ip alloc st arr msg sender c) ≡ frame c
  unfolding answer_ping sent_votes
  frame-answer_ping st arr msg sender c =
      let c1 = update_own_address arr msg c in
      let c2 = process_meet norm_ip same_ip alloc st arr msg sender c1 in
      if-same frame (is_ping msg.kind || is_meet msg.kind) (emit (sent_pong arr.link) c2) c _
        (frame-emit (sent_pong arr.link) c2 refl
          ∙ frame-process_meet st arr msg sender c1
          ∙ frame-update_own_address arr msg c)
        refl

frame-update_sender_address :
    (arr : Arrival) (msg : Message) (s : ℕ) (c : Cluster)
    → frame (update_sender_address arr msg s c) ≡ frame c
unfolding update_sender_address
frame-update_sender_address arr msg s c =
    let (c1, moved) = update_address_if_needed s arr.link (node_ip arr msg) msg.port msg.cport c in
    if-same frame moved (save_and_update c1) c1 _ (frame-record _ c1 refl) refl
    ∙ frame-update_address_if_needed s arr.link (node_ip arr msg) msg.port msg.cport c

frame-complete_handshake :
    (msg : Message) (n : ℕ) (c : Cluster) → Quietly c (complete_handshake msg n c)
unfolding complete_handshake
frame-complete_handshake msg n c =
    Quietly-bind (λ c'. c') c (rename_node n msg.sender c) _ (frame-rename_node n msg.sender c)
      (λ c'. frame-record _ c' refl)

pub frame-settle_link :
    (st : Settings) (arr : Arrival) (msg : Message) (sender : Option ℕ) (c : Cluster)
    → QuietlyWith c (settle_link st arr msg sender c)
unfolding settle_link drop_address sent_votes
frame-settle_link st arr msg sender c = elim (Option-cases arr.link_node) [
  | inl e ↦ rw (e, settle_link) refl
  | inr (n, e) ↦ elim (Bool-cases (node_in_handshake (c.heap n))) [
    | inr f ↦ elim (Bool-cases (bytes_beq (c.heap n).name msg.sender)) [
      | inl g ↦ rw (e, settle_link) (rw f (rw g refl))
      | inr g ↦
          let m = c.heap n in
          let c1 =
            put_node n
              (record m {
                flags = record m.flags { noaddr = true };
                ip = [];
                port = 0;
                cport = 0;
                link = none;
              })
              c in
          rw (e, settle_link)
            (rw f (
              rw g (
                frame-record (save (emit (closed_link arr.link) c1))
                  (emit (closed_link arr.link) c1) refl
                ∙ frame-emit (closed_link arr.link) c1 refl
                ∙ frame-record c1 c refl)))
    ]
    | inl f ↦ elim (Option-cases sender) [
      | inr (s, g) ↦
          let c1 = update_sender_address arr msg s c in
          rw (e, settle_link)
            (rw f (
              rw g (
                Ends-bind (λ c'. frame c' ≡ frame c1) _ (del_node st arr.now n c1) _
                  (frame-del_node st arr.now n c1)
                  (λ c' q. q ∙ frame-update_sender_address arr msg s c))))
      | inl g ↦
          rw (e, settle_link)
            (rw f (
              rw g (
                Ends-bind (λ c'. frame c' ≡ frame c) _ (complete_handshake msg n c) _
                  (frame-complete_handshake msg n c) (λ c' q. q))))
    ]
  ]
]

pub frame-note_ping :
    (arr : Arrival) (msg : Message) (sender : Option ℕ) (c : Cluster)
    → frame (note_ping arr msg sender c) ≡ frame c
unfolding note_ping
frame-note_ping arr msg none c = refl
frame-note_ping arr msg (some s) c =
    if-same frame (is_ping msg.kind && not (node_in_handshake (c.heap s)))
      (update_sender_address arr msg s c) c _ (frame-update_sender_address arr msg s c) refl

pub frame-note_pong :
    (st : Settings) (arr : Arrival) (msg : Message) (c : Cluster)
    → Quietly c (note_pong st arr msg c)
unfolding note_pong
frame-note_pong st arr msg c = elim (Option-cases arr.link_node) [
  | inl e ↦ rw (e, note_pong) refl
  | inr (n, e) ↦ elim (Bool-cases (is_pong msg.kind)) [
    | inr f ↦ rw (e, note_pong) (rw f refl)
    | inl f ↦
        let c1 = put_node n (record (c.heap n) { pong_received = arr.now; ping_sent = 0 }) c in
        let m = c1.heap n in
        rw (e, note_pong)
          (rw f (elim (Bool-cases (node_timed_out m)) [
            | inl g ↦ rw g (frame-record _ c refl)
            | inr g ↦ elim (Bool-cases (node_failed m)) [
              | inl h ↦ rw g (
                  rw h (
                    Quietly-from c1 c _ (frame-record c1 c refl)
                      (frame-clear_node_failure_if_needed st arr.now n c1)))
              | inr h ↦ rw g (rw h (frame-record c1 c refl))
            ]
          ]))
  ]
]
