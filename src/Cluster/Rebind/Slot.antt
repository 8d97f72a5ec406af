-- ===== src/Cluster/Rebind/Slot.antt =====
-- examples/cluster.c: one slot that `clusterUpdateSlotsConfigWith` rebinds.
use weggli_enhance.Common.{
  ℕ, ◌<◌, ◌≡◌, refl, ap, ◌∙◌, Bool, true, false, ◌||◌, Option, none, some, arith, nat_beq, done,
  Option-cases, inl, inr,
}
use weggli_enhance.Cluster.State.{Cluster, cluster_slots, write, save_update_and_sync}
use weggli_enhance.Cluster.Table.{add_slot, del_slot}
use weggli_enhance.Cluster.Table.Agreement.{
  AgreesTable, SetsSlot, add_slot-SetsSlot, del_slot-SetsSlot, del_slot-free,
}
use weggli_enhance.Cluster.Rebind.{Rebinding, same_pointer, rebound, rebind_slot}

-- The slot is claimed, not being imported, and free or owned under a smaller epoch.
pub record Takes (claimed : ℕ → Bool) (epoch : ℕ) (c : Cluster) (j : ℕ) : Type 0 where
  pub is_claimed : claimed j ≡ true
  pub not_importing : c.importing_slots_from j ≡ none
  pub outdated : (owner : ℕ) → c.slots j ≡ some owner → (c.heap owner).config_epoch < epoch

-- What is the same before and after.
pub record Same (c c' : Cluster) : Type 0 where
  pub importing : c'.importing_slots_from ≡ c.importing_slots_from
  pub myself : c'.myself ≡ c.myself
  pub epochs : (p : ℕ) → (c'.heap p).config_epoch ≡ (c.heap p).config_epoch
  pub masters : (p : ℕ) → (c'.heap p).flags.master ≡ (c.heap p).flags.master
  pub slaveofs : (p : ℕ) → (c'.heap p).slaveof ≡ (c.heap p).slaveof

pub Same-trans : (a b c : Cluster) → Same a b → Same b c → Same a c
Same-trans a b c h k = record {
  importing = k.importing ∙ h.importing;
  myself = k.myself ∙ h.myself;
  epochs = λ p. k.epochs p ∙ h.epochs p;
  masters = λ p. k.masters p ∙ h.masters p;
  slaveofs = λ p. k.slaveofs p ∙ h.slaveofs p;
}

pub Same-refl : (c : Cluster) → Same c c
Same-refl c = record {
  importing = refl;
  myself = refl;
  epochs = λ p. refl;
  masters = λ p. refl;
  slaveofs = λ p. refl;
}

SetsSlot-Same : (j : ℕ) (o : Option ℕ) (c c' : Cluster) → SetsSlot j o c c' → Same c c'
SetsSlot-Same j o c c' h = record {
  importing = h.importing;
  myself = h.myself;
  epochs = h.epochs;
  masters = h.masters;
  slaveofs = h.slaveofs;
}

Same-todo : (c c' : Cluster) → Same c c' → Same c (save_update_and_sync c')
Same-todo c c' h = record {
  importing = h.importing;
  myself = h.myself;
  epochs = h.epochs;
  masters = h.masters;
  slaveofs = h.slaveofs;
}

-- The slot `j` went to the sender, and no other changed.
pub record Moves (sender j : ℕ) (c c' : Cluster) : Type 0 where
  pub agrees : AgreesTable c'
  pub same : Same c c'
  pub here : c'.slots j ≡ some sender
  pub others : (k : ℕ) → nat_beq k j ≡ false → c'.slots k ≡ c.slots k

at_write : {A : Type 0} (j k : ℕ) (x : A) (m : ℕ → A) → nat_beq k j ≡ false → write j x m k ≡ m k
at_write j k x m off = rw off refl

at_write_self : {A : Type 0} (j : ℕ) (x : A) (m : ℕ → A) → write j x m j ≡ x
at_write_self j x m = ground arith

module _ (sender j : ℕ) (lt : j < cluster_slots) where
  Moves-free :
      (c : Cluster)
      → AgreesTable c
      → c.slots j ≡ none
      → Moves sender j c (save_update_and_sync (add_slot sender j c).0)
  Moves-free c h free =
      let s = add_slot-SetsSlot c h j sender lt free in
      record {
        agrees = record { owner = s.agrees.owner; counted = s.agrees.counted };
        same = Same-todo c _ (SetsSlot-Same j (some sender) c _ s);
        here = ap (λ (t : ℕ → Option ℕ). t j) s.slots ∙ at_write_self j (some sender) c.slots;
        others = λ k off.
            ap (λ (t : ℕ → Option ℕ). t k) s.slots ∙ at_write j k (some sender) c.slots off;
      }

  Moves-owned :
      (c c1 : Cluster)
      → SetsSlot j none c c1
      → Moves sender j c (save_update_and_sync (add_slot sender j c1).0)
  Moves-owned c c1 s =
      let free : c1.slots j ≡ none =
        ap (λ (t : ℕ → Option ℕ). t j) s.slots ∙ at_write_self j none c.slots in
      let m = Moves-free c1 s.agrees free in
      record {
        agrees = m.agrees;
        same = Same-trans c c1 _ (SetsSlot-Same j none c c1 s) m.same;
        here = m.here;
        others = λ k off.
            m.others k off
            ∙ (ap (λ (t : ℕ → Option ℕ). t k) s.slots ∙ at_write j k none c.slots off);
      }

  rebind_slot-put :
      (keys : ℕ → Bool) (curmaster : Option ℕ) (r : Rebinding) (c1 : Cluster) (b : Bool)
      → del_slot j r.cluster ≡ done (c1, b)
      → rebind_slot keys sender curmaster j r ≡ done (rebound keys sender curmaster j r c1)
  unfolding rebind_slot
  rebind_slot-put keys curmaster r c1 b e = rw (e, rebind_slot) refl

  -- One slot that is free or owned goes to the sender.
  pub rebind_slot-Moves :
      (keys : ℕ → Bool) (curmaster : Option ℕ) (r : Rebinding)
      → AgreesTable r.cluster
      → (r' : Rebinding) × (rebind_slot keys sender curmaster j r ≡ done r')
        × Moves sender j r.cluster r'.cluster
        × (r'.newmaster ≡ (r.newmaster || same_pointer (r.cluster.slots j) curmaster))
  unfolding rebound
  rebind_slot-Moves keys curmaster r h = elim (Option-cases (r.cluster.slots j)) [
    | inl free ↦ (
      rebound keys sender curmaster j r r.cluster,
      rebind_slot-put keys curmaster r r.cluster false (del_slot-free r.cluster j free),
      Moves-free r.cluster h free,
      refl,
    )
    | inr (p, owned) ↦
        let (c1, e1, s) = del_slot-SetsSlot r.cluster h j p lt owned in
        (
          rebound keys sender curmaster j r c1,
          rebind_slot-put keys curmaster r c1 true e1,
          Moves-owned r.cluster c1 s,
          refl,
        )
  ]
