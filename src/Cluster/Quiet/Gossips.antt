-- ===== src/Cluster/Quiet/Gossips.antt =====
-- examples/cluster.c: the gossip section, the epochs and the votes.
use weggli_enhance.Common.{
  ℕ, ◌+◌, ◌*◌, ◌≡◌, refl, ◌∙◌, Bool, true, not, ◌&&◌, ◌||◌, List, [], ◌∷◌, Option, none, some,
  nat_beq, ltb, leb, Bool-cases, Option-cases, inl, inr,
}
use weggli_enhance.Text.{Bytes}
use weggli_enhance.Cluster.State.{Flags, no_flags, Cluster, put_node, node_is_master}
use weggli_enhance.Cluster.Reports.{
  Settings, add_failure_report, failure_reports_count, cleanup_failure_reports,
}
use weggli_enhance.Cluster.Nodes.{lookup_node, free_link, create_node}
use weggli_enhance.Cluster.Epochs.{blacklist_exists, blacklist_cleanup}
use weggli_enhance.Cluster.Handshake.{
  Started, started, refused, start_handshake, handshake_in_progress, valid_port,
}
use weggli_enhance.Cluster.Gossip.{
  GossipEntry, reports_failure, gossip_report, gossip_pong, gossip_address, gossip_unknown,
  process_gossip_entry, process_gossip_section,
}
use weggli_enhance.Cluster.Quiet.{frame, frame-record, if-same}
use weggli_enhance.Cluster.Quiet.Nodes.{
  frame-free_link, frame-del_failure_report, frame-mark_node_as_failing_if_needed, frame-add_node,
}

frame-gossip_report :
    (st : Settings) (now : ℕ) (sender : Option ℕ) (flags : Flags) (p : ℕ) (c : Cluster)
    → frame (gossip_report st now sender flags p c) ≡ frame c
unfolding gossip_report add_failure_report
frame-gossip_report st now none flags p c = refl
frame-gossip_report st now (some s) flags p c =
    let c1 = (add_failure_report now p s c).0 in
    elim (Bool-cases (node_is_master (c.heap s) && not (nat_beq p c.myself))) [
      | inr e ↦ rw (e, gossip_report) refl
      | inl e ↦ elim (Bool-cases (reports_failure flags)) [
        | inl f ↦
            rw (e, gossip_report)
              (rw f (frame-mark_node_as_failing_if_needed st now p c1 ∙ frame-record c1 c refl))
        | inr f ↦ rw (e, gossip_report) (rw f (frame-del_failure_report st now p s c))
      ]
    ]

frame-gossip_pong :
    (st : Settings) (now pong : ℕ) (flags : Flags) (p : ℕ) (c : Cluster)
    → frame (gossip_pong st now pong flags p c) ≡ frame c
unfolding gossip_pong failure_reports_count cleanup_failure_reports
frame-gossip_pong st now pong flags p c =
    let (c1, reports) = failure_reports_count st now p c in
    let n = c1.heap p in
    let newer =
      nat_beq reports 0 && leb (pong * 1000) (now + 500) && ltb n.pong_received (pong * 1000) in
    elim (Bool-cases (reports_failure flags || not (nat_beq (c.heap p).ping_sent 0))) [
      | inl e ↦ rw (e, gossip_pong) refl
      | inr e ↦
          rw (e, gossip_pong)
            (if-same frame newer (put_node p (record n { pong_received = pong * 1000 }) c1) c1 _
                (frame-record _ c1 refl) refl
              ∙ frame-record c1 c refl)
    ]

frame-gossip_address :
    (same_ip : Bytes → Bytes → Bool) (g : GossipEntry) (p : ℕ) (c : Cluster)
    → frame (gossip_address same_ip g p c) ≡ frame c
unfolding gossip_address
frame-gossip_address same_ip g p c =
    let n = c.heap p in
    let moved =
      reports_failure n.flags
      && not g.flags.noaddr
      && not (reports_failure g.flags)
      && (not (same_ip n.ip g.ip)
          || not (nat_beq n.port g.port)
          || not (nat_beq n.cport g.cport)) in
    elim (Bool-cases moved) [
      | inl e ↦ rw (e, gossip_address) (frame-record _ (free_link p c) refl ∙ frame-free_link p c)
      | inr e ↦ rw (e, gossip_address) refl
    ]

-- A handshake that is started.
unfoldable FromStart : Cluster → Started → Type 0
FromStart c (started c') = frame c' ≡ frame c
FromStart c (refused e) = Unit

frame-started :
    (c : Cluster) (r : Started)
    → FromStart c r
    → frame (elim r [ started c' ↦ c' | refused e ↦ c ]) ≡ frame c
unfolding FromStart
frame-started c (started c') e = e
frame-started c (refused x) e = refl

module _ (norm_ip : Bytes → Option Bytes) (same_ip : Bytes → Bytes → Bool)
    (alloc : Cluster → ℕ × Bytes) where
  frame-start_handshake :
      (now p : ℕ) (drawn ip : Bytes) (port cport : ℕ) (c : Cluster)
      → FromStart c (start_handshake norm_ip same_ip now p drawn ip port cport c)
  unfolding FromStart start_handshake
  frame-start_handshake now p drawn ip port cport c = elim (Option-cases (norm_ip ip)) [
    | inl e ↦ rw (e, start_handshake) tt
    | inr (normal, e) ↦
        elim (Bool-cases
          (not (valid_port norm_ip same_ip port && valid_port norm_ip same_ip cport))) [
            | inl f ↦ rw (e, start_handshake) (rw f tt)
            | inr f ↦
                elim (Bool-cases (handshake_in_progress norm_ip same_ip normal port cport c)) [
                  | inl g ↦ rw (e, start_handshake) (rw f (rw g tt))
                  | inr g ↦
                      let n =
                        record (create_node now drawn
                          (record no_flags { handshake = true; meet = true })) {
                            ip = normal;
                            port = port;
                            cport = cport;
                          } in
                      rw (e, start_handshake)
                        (rw f (
                          rw g (
                            frame-add_node p (put_node p n c)
                            ∙ frame-record (put_node p n c) c refl)))
                ]
          ]
  ]

  frame-gossip_unknown :
      (now unixtime : ℕ) (sender : Option ℕ) (g : GossipEntry) (c : Cluster)
      → frame (gossip_unknown norm_ip same_ip alloc now unixtime sender g c) ≡ frame c
  unfolding gossip_unknown blacklist_exists blacklist_cleanup FromStart
  frame-gossip_unknown now unixtime none g c = refl
  frame-gossip_unknown now unixtime (some s) g c =
      let (c1, listed) = blacklist_exists unixtime g.nodename c in
      let (p, drawn) = alloc c1 in
      elim (Bool-cases g.flags.noaddr) [
        | inl e ↦ rw (e, gossip_unknown) refl
        | inr e ↦ elim (Bool-cases listed) [
          | inl f ↦ rw (e, gossip_unknown) (rw f (frame-record c1 c refl))
          | inr f ↦
              rw (e, gossip_unknown)
                (rw f (
                  frame-started c1 _ (frame-start_handshake now p drawn g.ip g.port g.cport c1)
                  ∙ frame-record c1 c refl))
        ]
      ]

  frame-process_gossip_entry :
      (st : Settings) (now unixtime : ℕ) (sender : Option ℕ) (g : GossipEntry) (c : Cluster)
      → frame (process_gossip_entry norm_ip same_ip alloc st now unixtime sender g c) ≡ frame c
  unfolding process_gossip_entry
  frame-process_gossip_entry st now unixtime sender g c =
      elim (Option-cases (lookup_node g.nodename c)) [
        | inl e ↦ rw (e, process_gossip_entry) (frame-gossip_unknown now unixtime sender g c)
        | inr (p, e) ↦
            let c1 = gossip_report st now sender g.flags p c in
            rw (e, process_gossip_entry)
              (frame-gossip_address same_ip g p (gossip_pong st now g.pong_received g.flags p c1)
                ∙ frame-gossip_pong st now g.pong_received g.flags p c1
                ∙ frame-gossip_report st now sender g.flags p c)
      ]

  pub frame-process_gossip_section :
      (st : Settings) (now unixtime : ℕ) (sender : Option ℕ) (gs : List GossipEntry) (c : Cluster)
      → frame (process_gossip_section norm_ip same_ip alloc st now unixtime sender gs c) ≡ frame c
  unfolding process_gossip_section
  frame-process_gossip_section st now unixtime sender [] c = refl
  frame-process_gossip_section st now unixtime sender (g ∷ gs) c =
      frame-process_gossip_section st now unixtime sender gs
        (process_gossip_entry norm_ip same_ip alloc st now unixtime sender g c)
      ∙ frame-process_gossip_entry st now unixtime sender g c
