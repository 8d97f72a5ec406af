-- ===== src/Cluster/Rebind/Owners.antt =====
-- examples/cluster.c: the table of the slots after `clusterUpdateSlotsConfigWith`.
use weggli_enhance.Common.{
  ℕ, ◌<◌, ◌≡◌, ◌≢◌, refl, sym, subst, ap, ◌∙◌, Bool, true, false, ◌&&◌, List, [], ◌∷◌, Option, none,
  some, some-injective, arith, nat_beq, nat_beq_iff, if◌then◌else◌, done, panic, Bool-cases, ◌⊎◌,
  inl, inr,
}
use weggli_enhance.Cluster.State.{
  Cluster, deleted_keys, cluster_slots, emit, node_is_master, save_update_and_sync,
}
use weggli_enhance.Cluster.Table.{all_slots}
use weggli_enhance.Cluster.Table.Agreement.{AgreesTable, count_set-zero, count_set-none}
use weggli_enhance.Cluster.Roles.Table.{
  KeepsTable, KeepsTable-refl, KeepsTable-trans, KeepsTable-AgreesTable, set_master-KeepsTable,
}
use weggli_enhance.Cluster.Rebind.{
  Rebinding, rebind_slots, delete_dirty, finish_rebind, update_slots_config_with,
}
use weggli_enhance.Cluster.Rebind.Slot.{Takes}
use weggli_enhance.Cluster.Rebind.Loop.{Rebinds, rebind_slots-Rebinds}

-- This node is a master, or a slave of a known master without slots of its own.
abbrev pub HasMaster : Cluster → Type 0
HasMaster c =
    let me = c.heap c.myself in
    (me.flags.master ≡ true)
    ⊎ ((me.flags.master ≡ false) × ((m : ℕ) × (me.slaveof ≡ some m)) × (me.numslots ≡ 0))

delete_dirty-KeepsTable : (js : List ℕ) (c : Cluster) → KeepsTable c (delete_dirty js c)
unfolding delete_dirty
delete_dirty-KeepsTable [] c = KeepsTable-refl c
delete_dirty-KeepsTable (j ∷ js) c =
    KeepsTable-trans c (emit (deleted_keys j) c) _
      (record { slots = refl; myself = refl; bits = λ p. (refl, refl) })
      (delete_dirty-KeepsTable js (emit (deleted_keys j) c))

-- A node without slots that is not the sender has none after the loop.
still-none :
    (claimed : ℕ → Bool) (sender epoch : ℕ) (c c' : Cluster)
    → AgreesTable c
    → nat_beq sender c.myself ≡ false
    → Rebinds claimed sender epoch 0 cluster_slots c c'
    → (c.heap c.myself).numslots ≡ 0
    → (c'.heap c'.myself).numslots ≡ 0
still-none claimed sender epoch c c' h other r empty =
    h'.counted c'.myself
    ∙ count_set-none (c'.heap c'.myself).slots cluster_slots λ k lt on.
      let mine : c'.slots k ≡ some c.myself = (h'.owner k c'.myself).1 on ∙ ap some r.same.myself in
      let untaken : Takes claimed epoch c k → ⊥ = λ t.
        let e =
          some-injective sender c.myself
            (sym (r.taken k (omega arith) (omega (arith, lt)) t) ∙ mine) in
        ground (arith, (nat_beq_iff sender c.myself).1 e, other) in
      let before : c.slots k ≡ some c.myself = sym (r.kept k (λ le lt' t. untaken t)) ∙ mine in
      ground (
        arith,
        (h.owner k c.myself).0 before,
        count_set-zero (c.heap c.myself).slots cluster_slots k (sym (h.counted c.myself) ∙ empty)
            lt,
      )
  where
    h' : AgreesTable c'
    h' = r.agrees

finish_rebind-KeepsTable :
    (paused : Bool) (sender m : ℕ) (r : Rebinding)
    → nat_beq sender r.cluster.myself ≡ false
    → ((r.cluster.heap m).numslots ≡ 0 → (r.cluster.heap r.cluster.myself).numslots ≡ 0)
    → (c' : Cluster) × (finish_rebind paused sender (some m) r ≡ done c') × KeepsTable r.cluster c'
unfolding finish_rebind
finish_rebind-KeepsTable paused sender m r other empty =
    elim (Bool-cases (r.newmaster && nat_beq (r.cluster.heap m).numslots 0)) [
      | inr stays ↦
          (_, rw (stays, finish_rebind) refl, delete_dirty-KeepsTable r.dirty_slots r.cluster)
      | inl leaves ↦
          let (c1, e, k) =
            set_master-KeepsTable paused sender r.cluster other (empty (ground (arith, leaves))) in
          (
            save_update_and_sync c1,
            rw (leaves, finish_rebind) (rw e refl),
            KeepsTable-trans r.cluster c1 _ k
                (record { slots = refl; myself = refl; bits = λ p. (refl, refl) }),
          )
    ]

update-run :
    (keys : ℕ → Bool) (paused : Bool) (sender epoch : ℕ) (claimed : ℕ → Bool) (c : Cluster) {m : ℕ}
    {r : Rebinding} {c' : Cluster}
    → nat_beq sender c.myself ≡ false
    → (if node_is_master (c.heap c.myself) then some c.myself else (c.heap c.myself).slaveof)
      ≡ some m
    → rebind_slots keys sender epoch claimed
        (some m)
        all_slots
        (record { cluster = c; newmaster = false; dirty_slots = [] })
      ≡ done r
    → finish_rebind paused sender (some m) r ≡ done c'
    → update_slots_config_with keys paused sender epoch claimed c ≡ done c'
unfolding update_slots_config_with
update-run keys paused sender epoch claimed c other cur e f =
    rw (other, cur, update_slots_config_with) (rw e f)

update-from :
    (keys : ℕ → Bool) (paused : Bool) (sender epoch : ℕ) (claimed : ℕ → Bool) (c : Cluster) (m : ℕ)
    → AgreesTable c
    → nat_beq sender c.myself ≡ false
    → (if node_is_master (c.heap c.myself) then some c.myself else (c.heap c.myself).slaveof)
      ≡ some m
    → (m ≡ c.myself) ⊎ ((c.heap c.myself).numslots ≡ 0)
    → (c1 c2 : Cluster) × (update_slots_config_with keys paused sender epoch claimed c ≡ done c2)
      × Rebinds claimed sender epoch 0 cluster_slots c c1
      × KeepsTable c1 c2
unfolding all_slots
update-from keys paused sender epoch claimed c m h other cur mine =
    let (r, e, reb) =
      rebind_slots-Rebinds keys sender epoch claimed (some m) 0 cluster_slots
        (record { cluster = c; newmaster = false; dirty_slots = [] }) h (omega arith) in
    let other' : nat_beq sender r.cluster.myself ≡ false = rw reb.same.myself other in
    let (c2, f, keeps) = finish_rebind-KeepsTable paused sender m r other' λ empty. elim mine [
      | inl me ↦ subst (λ z. (r.cluster.heap z).numslots ≡ 0) (me ∙ sym reb.same.myself) empty
      | inr none_mine ↦ still-none claimed sender epoch c r.cluster h other reb none_mine
    ] in
    (r.cluster, c2, update-run keys paused sender epoch claimed c other cur e f, reb, keeps)

-- A message of another node about its slots is taken over without a panic, where this node is a
-- master or follows one and has no slots. The table and the bitmaps still agree. A slot that is
-- claimed, not being imported, and free or owned under a smaller epoch belongs to the sender
-- afterwards, and every other slot to the owner that it had.
pub update_slots_config_with-Takes :
    (keys : ℕ → Bool) (paused : Bool) (sender epoch : ℕ) (claimed : ℕ → Bool) (c : Cluster)
    → AgreesTable c
    → HasMaster c
    → sender ≢ c.myself
    → (c' : Cluster) × (update_slots_config_with keys paused sender epoch claimed c ≡ done c')
      × AgreesTable c'
      × ((j : ℕ) → j < cluster_slots → Takes claimed epoch c j → c'.slots j ≡ some sender)
      × ((j : ℕ) → (Takes claimed epoch c j → ⊥) → c'.slots j ≡ c.slots j)
update_slots_config_with-Takes keys paused sender epoch claimed c h home other =
    let (m, cur, mine) = which home in
    let (c1, c2, e, r, k) = update-from keys paused sender epoch claimed c m h apart cur mine in
    (
      c2,
      e,
      KeepsTable-AgreesTable c1 c2 k r.agrees,
      λ j lt t.
          ap (λ (s : ℕ → Option ℕ). s j) k.slots ∙ r.taken j (omega arith) (omega (arith, lt)) t,
      λ j out. ap (λ (s : ℕ → Option ℕ). s j) k.slots ∙ r.kept j (λ le lt t. out t),
    )
  where
    apart : nat_beq sender c.myself ≡ false
    apart = ground (arith, other)

    which :
        HasMaster c
        → (m : ℕ) × ((if node_is_master (c.heap c.myself)
              then some c.myself
              else (c.heap c.myself).slaveof)
            ≡ some m)
          × ((m ≡ c.myself) ⊎ ((c.heap c.myself).numslots ≡ 0))
    which (inl master) = (c.myself, rw master refl, inl refl)
    which (inr (slave, (m, e), empty)) = (m, rw slave e, inr empty)

-- A slave without a master that hears of a claim on a free slot follows a null pointer.
pub update_slots-null :
    (keys : ℕ → Bool) (paused : Bool) (sender : ℕ) (r : Rebinding)
    → r.newmaster ≡ true
    → finish_rebind paused sender none r ≡ panic
unfolding finish_rebind
update_slots-null keys paused sender r e = rw e refl
