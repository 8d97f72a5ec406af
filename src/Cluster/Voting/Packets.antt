-- ===== src/Cluster/Voting/Packets.antt =====
-- examples/cluster.c: the packets that arrive, and the votes of this node.
use weggli_enhance.Common.{
  ℕ, ◌≡◌, refl, ◌∙◌, Bool, ◌&&◌, Option, none, some, nat_beq, if◌then◌else◌, Outcome, done, panic,
  Bool-cases, inl, inr,
}
use weggli_enhance.Text.{Bytes}
use weggli_enhance.Cluster.State.{Cluster, published, emit, node_is_master}
use weggli_enhance.Cluster.Reports.{Settings}
use weggli_enhance.Cluster.Table.{all_slots}
use weggli_enhance.Cluster.Nodes.{lookup_node}
use weggli_enhance.Cluster.Epochs.{handle_epoch_collision}
use weggli_enhance.Cluster.Rebind.{update_slots_config_with}
use weggli_enhance.Cluster.Packet.{
  Kind, ping, pong, meet_msg, fail_msg, publish, auth_request, auth_ack, update, mfstart, unknown,
  Message, Sizes, Arrival, is_sane, sender_epochs, note_sender,
}
use weggli_enhance.Cluster.Pings.{gossip_sender, answer_ping, settle_link, note_ping, note_pong}
use weggli_enhance.Cluster.Configs.{is_dirty, notify_outdated, update_claims, switch_role}
use weggli_enhance.Cluster.Dispatch.{
  process_fail, process_auth_request, process_auth_ack, process_mfstart, process_update,
  process_claims, process_ping, dispatch, process_packet,
}
use weggli_enhance.Cluster.Quiet.{frame, sent_votes, frame-emit, if-same, Ends, Ends-bind, Ends-if}
use weggli_enhance.Cluster.Quiet.Slots.{frame-update_slots_config_with}
use weggli_enhance.Cluster.Quiet.Gossips.{frame-process_gossip_section}
use weggli_enhance.Cluster.Quiet.Links.{
  frame-answer_ping, frame-settle_link, frame-note_ping, frame-note_pong,
}
use weggli_enhance.Cluster.Quiet.Claims.{
  frame-switch_role, frame-notify_outdated, frame-process_fail, frame-process_auth_ack,
  frame-process_mfstart, frame-process_update,
}
use weggli_enhance.Cluster.Voting.{
  VotesOnce, Raises, Raises-frame, Raises-trans, Raises-VotesOnce, current_epoch-frame,
  send_failover_auth_if_needed-VotesOnce,
}
use weggli_enhance.Cluster.Voting.Epochs.{
  HasNext, handle_epoch_collision-Raises, note_sender-Raises,
}

-- A quiet run from a state with the epochs and votes of `c`, and then one that may raise the epoch.
after_quiet : (c c1 c2 : Cluster) → frame c1 ≡ frame c → Raises c1 c2 → Raises c c2
after_quiet c c1 c2 e r = Raises-trans c c1 c2 (Raises-frame c c1 e) r

update_claims-Raises :
    (st : Settings) (arr : Arrival) (msg : Message) (epoch s : ℕ) (c : Cluster)
    → HasNext c.current_epoch
    → Ends (Raises c) (update_claims st arr msg epoch s c)
unfolding update_claims
update_claims-Raises st arr msg epoch s c h =
    let dirty = is_dirty msg s c in
    Ends-bind (λ c1. frame c1 ≡ frame c) (Raises c) _ _
      (Ends-if (λ c1. frame c1 ≡ frame c) (node_is_master (c.heap s) && dirty)
        (update_slots_config_with arr.keys arr.clients_paused s epoch msg.myslots c) (done c)
        (frame-update_slots_config_with arr.keys arr.clients_paused s epoch msg.myslots c) refl)
      λ c1 e.
        let c2 = if dirty then notify_outdated msg epoch s all_slots c1 else c1 in
        let me = c2.heap c2.myself in
        let quiet : frame c2 ≡ frame c =
          if-same frame dirty (notify_outdated msg epoch s all_slots c1) c1 _
            (frame-notify_outdated msg epoch s all_slots c1) refl
          ∙ e in
        let next : HasNext c2.current_epoch = rw (current_epoch-frame c c2 quiet) h in
        elim (Bool-cases
          (node_is_master me && node_is_master (c2.heap s) && nat_beq epoch me.config_epoch)) [
            | inl f ↦ rw f (
                after_quiet c c2 (handle_epoch_collision s c2) quiet
                  (handle_epoch_collision-Raises s c2 next))
            | inr f ↦ rw f (Raises-frame c c2 quiet)
          ]

module _ (norm_ip : Bytes → Option Bytes) (same_ip : Bytes → Bytes → Bool)
    (alloc : Cluster → ℕ × Bytes) where
  process_claims-Raises :
      (st : Settings) (arr : Arrival) (msg : Message) (epoch : ℕ) (sender : Option ℕ) (c : Cluster)
      → HasNext c.current_epoch
      → Ends (Raises c) (process_claims norm_ip same_ip alloc st arr msg epoch sender c)
  unfolding process_claims
  process_claims-Raises st arr msg epoch none c h = Raises-frame c c refl
  process_claims-Raises st arr msg epoch (some s) c h =
      Ends-bind (λ c1. frame c1 ≡ frame c) (Raises c) (switch_role arr msg s c) _
        (frame-switch_role arr msg s c)
        λ c1 e.
          Ends-bind (Raises c1) (Raises c) (update_claims st arr msg epoch s c1) _
            (update_claims-Raises st arr msg epoch s c1 (rw (current_epoch-frame c c1 e) h))
            λ c2 r. after_quiet c c1 _ e (
              Raises-trans c1 c2 _ r (
                Raises-frame c2 _ (
                  frame-process_gossip_section norm_ip same_ip alloc st arr.now arr.unixtime
                    (gossip_sender arr (lookup_node msg.sender c2)) msg.gossip c2)))

  process_ping-Raises :
      (st : Settings) (arr : Arrival) (msg : Message) (epoch : ℕ) (sender : Option ℕ) (c : Cluster)
      → HasNext c.current_epoch
      → Ends (λ r. Raises c r.0) (process_ping norm_ip same_ip alloc st arr msg epoch sender c)
  unfolding process_ping
  process_ping-Raises st arr msg epoch sender c h =
      let c0 = answer_ping norm_ip same_ip alloc st arr msg sender c in
      Ends-bind (λ (r : Cluster × Bool). frame r.0 ≡ frame c0)
        (λ (r : Cluster × Bool). Raises c r.0) (settle_link st arr msg sender c0) _
        (frame-settle_link st arr msg sender c0)
        λ r e.
          let c1 = r.0 in
          let quiet : frame c1 ≡ frame c =
            e ∙ frame-answer_ping norm_ip same_ip alloc st arr msg sender c in
          elim (Bool-cases r.1) [
            | inr stop ↦ rw stop (Raises-frame c c1 quiet)
            | inl on ↦
                let c2 = note_ping arr msg sender c1 in
                rw on (
                  Ends-bind (λ c3. frame c3 ≡ frame c2) (λ (r : Cluster × Bool). Raises c r.0)
                    (note_pong st arr msg c2) _ (frame-note_pong st arr msg c2)
                    λ c3 f.
                      let quiet' : frame c3 ≡ frame c =
                        f ∙ frame-note_ping arr msg sender c1 ∙ quiet in
                      Ends-bind (Raises c3) (λ (r : Cluster × Bool). Raises c r.0)
                        (process_claims norm_ip same_ip alloc st arr msg epoch sender c3) _
                        (process_claims-Raises st arr msg epoch sender c3
                          (rw (current_epoch-frame c c3 quiet') h))
                        (λ c4 r. after_quiet c c3 c4 quiet' r))
          ]

  -- A run whose states keep the promise.
  abbrev Keeps : Outcome (Cluster × Bool) → Type 0
  Keeps = Ends λ r. VotesOnce r.0

  raising :
      (c : Cluster) (o : Outcome (Cluster × Bool))
      → VotesOnce c
      → Ends (λ r. Raises c r.0) o
      → Keeps o
  raising c (done r) h q = Raises-VotesOnce c r.0 q h
  raising c panic h q = tt

  quietly : (c c' : Cluster) → VotesOnce c → frame c' ≡ frame c → VotesOnce c'
  quietly c c' h e = Raises-VotesOnce c c' (Raises-frame c c' e) h

  process_auth_request-VotesOnce :
      (st : Settings) (now : ℕ) (msg : Message) (sender : Option ℕ) (c : Cluster)
      → VotesOnce c
      → VotesOnce (process_auth_request st now msg sender c)
  unfolding process_auth_request
  process_auth_request-VotesOnce st now msg none c h = h
  process_auth_request-VotesOnce st now msg (some s) c h =
      send_failover_auth_if_needed-VotesOnce st now s _ c h

  process_ping-VotesOnce :
      (st : Settings) (arr : Arrival) (msg : Message) (epoch : ℕ) (sender : Option ℕ) (c : Cluster)
      → HasNext c.current_epoch
      → VotesOnce c
      → Keeps (process_ping norm_ip same_ip alloc st arr msg epoch sender c)
  process_ping-VotesOnce st arr msg epoch sender c next h =
      raising c (process_ping norm_ip same_ip alloc st arr msg epoch sender c) h
        (process_ping-Raises st arr msg epoch sender c next)

  dispatch-VotesOnce :
      (st : Settings) (arr : Arrival) (msg : Message) (current config : ℕ) (sender : Option ℕ)
      (c : Cluster)
      → HasNext c.current_epoch
      → VotesOnce c
      → (k : Kind) → msg.kind ≡ k
      → Keeps (dispatch norm_ip same_ip alloc st arr msg (current, config) sender c)
  unfolding dispatch sent_votes
  dispatch-VotesOnce st arr msg current config sender c next h ping e =
      rw (e, dispatch) (process_ping-VotesOnce st arr msg config sender c next h)
  dispatch-VotesOnce st arr msg current config sender c next h pong e =
      rw (e, dispatch) (process_ping-VotesOnce st arr msg config sender c next h)
  dispatch-VotesOnce st arr msg current config sender c next h meet_msg e =
      rw (e, dispatch) (process_ping-VotesOnce st arr msg config sender c next h)
  dispatch-VotesOnce st arr msg current config sender c next h fail_msg e =
      rw (e, dispatch)
        (quietly c (process_fail arr.now msg sender c) h (frame-process_fail arr.now msg sender c))
  dispatch-VotesOnce st arr msg current config sender c next h publish e =
      rw (e, dispatch)
        (quietly c _ h (
          if-same frame arr.has_subscribers (emit (published msg.channel msg.message) c) c _
            (frame-emit (published msg.channel msg.message) c refl) refl))
  dispatch-VotesOnce st arr msg current config sender c next h auth_request e =
      rw (e, dispatch) (process_auth_request-VotesOnce st arr.now msg sender c h)
  dispatch-VotesOnce st arr msg current config sender c next h auth_ack e =
      rw (e, dispatch)
        (quietly c (process_auth_ack current sender c) h (frame-process_auth_ack current sender c))
  dispatch-VotesOnce st arr msg current config sender c next h mfstart e =
      rw (e, dispatch)
        (quietly c (process_mfstart arr sender c) h (frame-process_mfstart arr sender c))
  dispatch-VotesOnce st arr msg current config sender c next h update e =
      rw (e, dispatch)
        (Ends-bind (λ c1. frame c1 ≡ frame c) (λ (r : Cluster × Bool). VotesOnce r.0)
          (process_update arr msg sender c) _ (frame-process_update arr msg sender c)
          (λ c1 q. quietly c c1 h q))
  dispatch-VotesOnce st arr msg current config sender c next h unknown e = rw (e, dispatch) h

  -- Where no vote was sent twice in one epoch before a packet arrives, none is afterwards, whatever
  -- the packet says, as long as neither this node's epoch nor the packet's is the last one that a
  -- `uint64_t` holds.
  pub process_packet-VotesOnce :
      (st : Settings) (z : Sizes) (arr : Arrival) (msg : Message) (c : Cluster)
      → HasNext c.current_epoch
      → HasNext msg.current_epoch
      → VotesOnce c
      → Ends (λ r. VotesOnce r.0) (process_packet norm_ip same_ip alloc st z arr msg c)
  unfolding process_packet
  process_packet-VotesOnce st z arr msg c next below h = elim (Bool-cases (is_sane z arr msg)) [
    | inr e ↦ rw (e, process_packet) h
    | inl e ↦
        let sender = lookup_node msg.sender c in
        let (current, config) = sender_epochs msg sender c in
        let noted = note_sender-Raises arr.now msg sender c next below in
        rw (e, process_packet)
          (dispatch-VotesOnce st arr msg current config sender (note_sender arr.now msg sender c)
            noted.1 (Raises-VotesOnce c _ noted.0 h) msg.kind refl)
  ]
