-- ===== src/Cluster/Quiet/Claims.antt =====
-- examples/cluster.c: roles, and the packets but those about votes and epochs, the epochs and the
-- votes.
use weggli_enhance.Common.{
  ℕ, ◌+◌, ◌*◌, ◌≡◌, refl, ◌∙◌, not, ◌&&◌, ◌||◌, List, [], ◌∷◌, Option, none, some, nat_beq, ltb,
  leb, if◌then◌else◌, bytes_beq, Bool-cases, Option-cases, inl, inr,
}
use weggli_enhance.Cluster.State.{
  Cluster, sent_update, paused_clients, put_node, emit, points_to, save_and_sync, node_is_master,
  node_is_slave,
}
use weggli_enhance.Cluster.Reports.{node_remove_slave, node_add_slave}
use weggli_enhance.Cluster.Table.{del_node_slots}
use weggli_enhance.Cluster.Nodes.{lookup_node}
use weggli_enhance.Cluster.Roles.{set_node_as_master, reset_manual_failover}
use weggli_enhance.Cluster.Packet.{Message, Arrival}
use weggli_enhance.Cluster.Configs.{demote, change_master, switch_role, notify_outdated}
use weggli_enhance.Cluster.Dispatch.{
  process_fail, process_auth_ack, process_mfstart, process_update,
}
use weggli_enhance.Cluster.Quiet.{
  frame, sent_votes, frame-emit, frame-record, if-same, Quietly, Quietly-from, Quietly-bind,
}
use weggli_enhance.Cluster.Quiet.Nodes.{
  frame-node_remove_slave, frame-node_add_slave, frame-set_node_as_master,
  frame-reset_manual_failover,
}
use weggli_enhance.Cluster.Quiet.Slots.{frame-del_node_slots, frame-update_slots_config_with}

frame-demote : (s : ℕ) (c : Cluster) → Quietly c (demote s c)
unfolding demote
frame-demote s c = elim (Bool-cases (node_is_master (c.heap s))) [
  | inr e ↦ rw (e, demote) refl
  | inl e ↦
      rw (e, demote)
        (Quietly-bind (λ (r : Cluster × ℕ). r.0) c (del_node_slots s c) _ (frame-del_node_slots s c)
          (λ r. frame-record _ r.0 refl))
]

-- A slave that leaves its master, if it has one.
frame-left :
    (s : ℕ) (c : Cluster) (old : Option ℕ)
    → frame (elim old as (λ o. Cluster) [ none ↦ c | some o ↦ (node_remove_slave o s c).0 ])
      ≡ frame c
frame-left s c none = refl
frame-left s c (some o) = frame-node_remove_slave o s c

frame-change_master : (s m : ℕ) (c : Cluster) → frame (change_master s m c) ≡ frame c
unfolding change_master
frame-change_master s m c =
    let c1 : Cluster = elim (c.heap s).slaveof [
      | none ↦ c
      | some o ↦ (node_remove_slave o s c).0
    ] in
    elim (Bool-cases (points_to (c.heap s).slaveof m)) [
      | inl e ↦ rw (e, change_master) refl
      | inr e ↦
          rw (e, change_master)
            (frame-record _ (node_add_slave m s c1).0 refl
              ∙ frame-node_add_slave m s c1
              ∙ frame-left s c (c.heap s).slaveof)
    ]

pub frame-switch_role :
    (arr : Arrival) (msg : Message) (s : ℕ) (c : Cluster) → Quietly c (switch_role arr msg s c)
unfolding switch_role
frame-switch_role arr msg s c = elim (Bool-cases (bytes_beq msg.slaveof arr.null_name)) [
  | inl e ↦ rw (e, switch_role) (frame-set_node_as_master s c)
  | inr e ↦ elim (Option-cases (lookup_node msg.slaveof c)) [
    | inl f ↦
        rw (e, switch_role)
          (rw f (Quietly-bind (λ c'. c') c (demote s c) _ (frame-demote s c) (λ c'. refl)))
    | inr (m, f) ↦
        rw (e, switch_role)
          (rw f (
            Quietly-bind (λ c'. c') c (demote s c) _ (frame-demote s c)
              (λ c'. frame-change_master s m c')))
  ]
]

frame-told :
    (o : ℕ) (c : Cluster) (link : Option ℕ)
    → frame (elim link as (λ l. Cluster) [ none ↦ c | some l ↦ emit (sent_update l o) c ]) ≡ frame c
unfolding sent_votes
frame-told o c none = refl
frame-told o c (some l) = frame-emit (sent_update l o) c refl

pub frame-notify_outdated :
    (msg : Message) (epoch s : ℕ) (js : List ℕ) (c : Cluster)
    → frame (notify_outdated msg epoch s js c) ≡ frame c
unfolding notify_outdated sent_votes
frame-notify_outdated msg epoch s [] c = refl
frame-notify_outdated msg epoch s (j ∷ js) c =
    let rest = frame-notify_outdated msg epoch s js c in
    elim (Bool-cases (not (msg.myslots j) || points_to (c.slots j) s)) [
      | inl e ↦ rw (e, notify_outdated) rest
      | inr e ↦ elim (Option-cases (c.slots j)) [
        | inl f ↦ rw (e, notify_outdated) (rw f rest)
        | inr (o, f) ↦ elim (Bool-cases (ltb epoch (c.heap o).config_epoch)) [
          | inr g ↦ rw (e, notify_outdated) (rw f (rw g rest))
          | inl g ↦ rw (e, notify_outdated) (rw f (rw g (frame-told o c (c.heap s).link)))
        ]
      ]
    ]

pub frame-process_fail :
    (now : ℕ) (msg : Message) (sender : Option ℕ) (c : Cluster)
    → frame (process_fail now msg sender c) ≡ frame c
unfolding process_fail
frame-process_fail now msg none c = refl
frame-process_fail now msg (some s) c = elim (Option-cases (lookup_node msg.failing c)) [
  | inl e ↦ rw (e, process_fail) refl
  | inr (p, e) ↦
      rw (e, process_fail)
        (elim (Bool-cases ((c.heap p).flags.fail || (c.heap p).flags.myself)) [
          | inl f ↦ rw f refl
          | inr f ↦ rw f (frame-record _ c refl)
        ])
]

pub frame-process_auth_ack :
    (epoch : ℕ) (sender : Option ℕ) (c : Cluster)
    → frame (process_auth_ack epoch sender c) ≡ frame c
unfolding process_auth_ack
frame-process_auth_ack epoch none c = refl
frame-process_auth_ack epoch (some s) c =
    let n = c.heap s in
    elim (Bool-cases
      (node_is_master n && not (nat_beq n.numslots 0) && leb c.election.epoch epoch)) [
        | inl e ↦ rw (e, process_auth_ack) (frame-record _ c refl)
        | inr e ↦ rw (e, process_auth_ack) refl
      ]

pub frame-process_mfstart :
    (arr : Arrival) (sender : Option ℕ) (c : Cluster)
    → frame (process_mfstart arr sender c) ≡ frame c
unfolding process_mfstart sent_votes
frame-process_mfstart arr none c = refl
frame-process_mfstart arr (some s) c = elim (Bool-cases (points_to (c.heap s).slaveof c.myself)) [
  | inr e ↦ rw (e, process_mfstart) refl
  | inl e ↦
      let c1 = reset_manual_failover arr.clients_paused c in
      let c2 = record c1 {
        manual = record c1.manual { end = arr.now + arr.mf_timeout; slave = some s };
      } in
      rw (e, process_mfstart)
        (frame-emit (paused_clients (arr.now + arr.mf_timeout * 2)) c2 refl
          ∙ frame-record c2 c1 refl
          ∙ frame-reset_manual_failover arr.clients_paused c)
]

pub frame-process_update :
    (arr : Arrival) (msg : Message) (sender : Option ℕ) (c : Cluster)
    → Quietly c (process_update arr msg sender c)
unfolding process_update
frame-process_update arr msg none c = refl
frame-process_update arr msg (some s) c = elim (Option-cases (lookup_node msg.about c)) [
  | inl e ↦ rw (e, process_update) refl
  | inr (p, e) ↦ elim (Bool-cases (leb msg.about_epoch (c.heap p).config_epoch)) [
    | inl f ↦ rw (e, process_update) (rw f refl)
    | inr f ↦
        let c1 = if node_is_slave (c.heap p) then set_node_as_master p c else c in
        let c2 =
          save_and_sync (put_node p (record (c1.heap p) { config_epoch = msg.about_epoch }) c1) in
        rw (e, process_update)
          (rw f (
            Quietly-from c2 c _
              (frame-record c2 c1 refl
                ∙ if-same frame (node_is_slave (c.heap p)) (set_node_as_master p c) c _
                    (frame-set_node_as_master p c) refl)
              (frame-update_slots_config_with arr.keys arr.clients_paused p msg.about_epoch
                msg.about_slots c2)))
  ]
]
