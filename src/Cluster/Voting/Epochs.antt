-- ===== src/Cluster/Voting/Epochs.antt =====
-- examples/cluster.c: the operations that raise the current epoch. An increment wraps around at 2^64.
use weggli_enhance.Common.{
  ℕ, ◌+◌, ◌^◌, ◌<◌, ◌≡◌, refl, ◌∙◌, not, ◌&&◌, ◌||◌, Option, none, some, nat_beq, ltb,
  if◌then◌else◌, arith, Bool-cases, inl, inr,
}
use weggli_enhance.Cluster.State.{
  Cluster, saved_config, put_node, increment, save_and_sync, node_is_master, node_is_slave,
  node_in_handshake, points_to,
}
use weggli_enhance.Cluster.Epochs.{
  take_new_epoch, bump_config_epoch, get_max_epoch, handle_epoch_collision, name_le,
}
use weggli_enhance.Cluster.Packet.{Message, note_offset, note_sender}
use weggli_enhance.Cluster.Quiet.{frame, sent_votes, frame-emit, frame-record, if-same}
use weggli_enhance.Cluster.Voting.{Raises, current_epoch-frame, Raises-frame, Raises-trans}

-- There is a next epoch.
abbrev pub HasNext : ℕ → Type 0
HasNext n = n + 1 < 2 ^ 64

take_new_epoch-Raises : (c : Cluster) → HasNext c.current_epoch → Raises c (take_new_epoch c)
unfolding take_new_epoch
take_new_epoch-Raises c h =
    let next : increment c.current_epoch ≡ c.current_epoch + 1 = omega (arith, h) in
    record { current = omega (arith, next); last = refl; votes = refl }

pub bump_config_epoch-Raises :
    (c : Cluster) → HasNext c.current_epoch → Raises c (bump_config_epoch c).0
unfolding bump_config_epoch
bump_config_epoch-Raises c h =
    let mine = (c.heap c.myself).config_epoch in
    elim (Bool-cases (nat_beq mine 0 || not (nat_beq mine (get_max_epoch c)))) [
      | inl e ↦
          rw (e, bump_config_epoch)
            (Raises-trans c (take_new_epoch c) _ (take_new_epoch-Raises c h)
              (Raises-frame (take_new_epoch c) _ (frame-record _ (take_new_epoch c) refl)))
      | inr e ↦ rw (e, bump_config_epoch) (Raises-frame c c refl)
    ]

pub handle_epoch_collision-Raises :
    (s : ℕ) (c : Cluster) → HasNext c.current_epoch → Raises c (handle_epoch_collision s c)
unfolding handle_epoch_collision sent_votes
handle_epoch_collision-Raises s c h =
    let n = c.heap s in
    let me = c.heap c.myself in
    let apart =
      not (nat_beq n.config_epoch me.config_epoch)
      || not (node_is_master n)
      || not (node_is_master me) in
    elim (Bool-cases apart) [
      | inl e ↦ rw (e, handle_epoch_collision) (Raises-frame c c refl)
      | inr e ↦ elim (Bool-cases (name_le n.name me.name)) [
        | inl f ↦ rw (e, handle_epoch_collision) (rw f (Raises-frame c c refl))
        | inr f ↦
            rw (e, handle_epoch_collision)
              (rw f (
                Raises-trans c (take_new_epoch c) _ (take_new_epoch-Raises c h) (
                  Raises-frame (take_new_epoch c) _
                    (frame-emit saved_config (take_new_epoch c) refl))))
      ]
    ]

frame-note_offset : (msg : Message) (p : ℕ) (c : Cluster) → frame (note_offset msg p c) ≡ frame c
unfolding note_offset
frame-note_offset msg p c =
    let me = c.heap c.myself in
    if-same frame
      (not (nat_beq c.manual.end 0)
        && node_is_slave me
        && points_to me.slaveof p
        && msg.is_paused
        && nat_beq c.manual.master_offset 0)
      (record c { manual = record c.manual { master_offset = (c.heap p).repl_offset } }) c _
      (frame-record _ c refl) refl

-- A known sender raises the epoch to its own.
pub note_sender-Raises :
    (now : ℕ) (msg : Message) (sender : Option ℕ) (c : Cluster)
    → HasNext c.current_epoch
    → HasNext msg.current_epoch
    → Raises c (note_sender now msg sender c) × HasNext (note_sender now msg sender c).current_epoch
unfolding note_sender
note_sender-Raises now msg none c h k = (Raises-frame c c refl, h)
note_sender-Raises now msg (some p) c h k = elim (Bool-cases (node_in_handshake (c.heap p))) [
  | inl e ↦ rw (e, note_sender) (Raises-frame c c refl, h)
  | inr e ↦
      let c1 =
        if ltb c.current_epoch msg.current_epoch
        then record c { current_epoch = msg.current_epoch }
        else c in
      let c2 =
        if ltb (c1.heap p).config_epoch msg.config_epoch
        then save_and_sync (put_node p (record (c1.heap p) { config_epoch = msg.config_epoch }) c1)
        else c1 in
      let c3 =
        put_node p (record (c2.heap p) { repl_offset = msg.offset; repl_offset_time = now }) c2 in
      let raised : Raises c c1 × HasNext c1.current_epoch =
        elim (Bool-cases (ltb c.current_epoch msg.current_epoch)) [
          | inl f ↦ rw f (record { current = ground (arith, f); last = refl; votes = refl }, k)
          | inr f ↦ rw f (Raises-frame c c refl, h)
        ] in
      let quiet : frame (note_offset msg p c3) ≡ frame c1 =
        frame-note_offset msg p c3
        ∙ frame-record c3 c2 refl
        ∙ if-same frame (ltb (c1.heap p).config_epoch msg.config_epoch)
            (save_and_sync (put_node p (record (c1.heap p) { config_epoch = msg.config_epoch }) c1))
            c1 _ (frame-record _ c1 refl) refl in
      let same : (note_offset msg p c3).current_epoch ≡ c1.current_epoch =
        current_epoch-frame c1 (note_offset msg p c3) quiet in
      rw (e, note_sender)
        (
          Raises-trans c c1 (note_offset msg p c3) raised.0
              (Raises-frame c1 (note_offset msg p c3) quiet),
          rw same raised.1,
        )
]
