-- ===== src/Cluster/Table/Agreement.antt =====
-- examples/cluster.c: what it means that the table of the slots and the bitmaps of the nodes agree,
-- with the count of each node's slots.
use weggli_enhance.Common.{
  ℕ, zero, suc, ◌+◌, ◌-◌, ◌<◌, ◌≤◌, ◌≡◌, ◌≢◌, refl, sym, subst, ap, ◌∙◌, Bool, true, false, ◌&&◌,
  ◌||◌, Option, none, some, some-injective, arith, nat_beq, nat_beq_iff, if◌then◌else◌, done,
  Bool-cases, inl, inr, ◌↔◌,
}
use weggli_enhance.Cluster.State.{Node, Cluster, cluster_slots, put_node, write}
use weggli_enhance.Cluster.Table.{
  node_set_slot_bit, node_clear_slot_bit, add_slot, del_slot, masters_have_slaves,
}

-- The number of positions below `n` that are set.
unfoldable pub count_set : (ℕ → Bool) → ℕ → ℕ
count_set s zero = 0
count_set s (suc n) = if s n then count_set s n + 1 else count_set s n

pub record AgreesTable (c : Cluster) : Type 0 where
  pub owner : (j p : ℕ) → (c.slots j ≡ some p) ↔ ((c.heap p).slots j ≡ true)
  pub counted : (p : ℕ) → (c.heap p).numslots ≡ count_set (c.heap p).slots cluster_slots

-- A bit beyond the positions that are counted does not matter.
count_set-beyond :
    (s : ℕ → Bool) (j n : ℕ) (b : Bool) → n ≤ j → count_set (write j b s) n ≡ count_set s n
unfolding count_set
count_set-beyond s j zero b h = refl
count_set-beyond s j (suc n) b h =
    let other : nat_beq n j ≡ false = ground arith in
    rw other (rw (count_set-beyond s j n b (omega arith)) refl)

-- A bit that is set counts one more, and one that is cleared one less.
count_set-set :
    (s : ℕ → Bool) (j n : ℕ)
    → j < n
    → s j ≡ false
    → count_set (write j true s) n ≡ count_set s n + 1
unfolding count_set
count_set-set s j zero h off = absurd (omega arith)
count_set-set s j (suc n) h off = elim (Bool-cases (nat_beq n j)) [
  | inl same ↦
      rw (same, count_set-beyond s j n true (ground (arith, same)), (nat_beq_iff n j).0 same)
        (rw off refl)
  | inr other ↦ rw (other, count_set-set s j n (ground (arith, h, other)) off) (ground arith)
]

count_set-clear :
    (s : ℕ → Bool) (j n : ℕ)
    → j < n
    → s j ≡ true
    → count_set s n ≡ count_set (write j false s) n + 1
unfolding count_set
count_set-clear s j zero h on = absurd (omega arith)
count_set-clear s j (suc n) h on = elim (Bool-cases (nat_beq n j)) [
  | inl same ↦
      rw (same, count_set-beyond s j n false (ground (arith, same)), (nat_beq_iff n j).0 same)
        (rw on refl)
  | inr other ↦ rw (other, count_set-clear s j n (ground (arith, h, other)) on) (ground arith)
]

pub count_set-zero : (s : ℕ → Bool) (n k : ℕ) → count_set s n ≡ 0 → k < n → s k ≡ false
unfolding count_set
count_set-zero s zero k e lt = absurd (omega arith)
count_set-zero s (suc n) k e lt = elim (Bool-cases (s n)) [
  | inl on ↦ absurd (omega (arith, rw on at e))
  | inr off ↦ elim (Bool-cases (nat_beq k n)) [
    | inl at ↦ rw ((nat_beq_iff k n).0 at) off
    | inr below ↦ count_set-zero s n k (rw off at e) (ground (arith, lt, below))
  ]
]

pub count_set-none : (s : ℕ → Bool) (n : ℕ) → ((k : ℕ) → k < n → s k ≡ true → ⊥) → count_set s n ≡ 0
unfolding count_set
count_set-none s zero h = refl
count_set-none s (suc n) h = elim (Bool-cases (s n)) [
  | inl on ↦ absurd (h n (omega arith) on)
  | inr off ↦ rw off (count_set-none s n (λ k lt. h k (omega arith)))
]

-- What a change of the owner of the slot `j` leaves as it is, and the table after it.
pub record SetsSlot (j : ℕ) (o : Option ℕ) (c c' : Cluster) : Type 0 where
  pub agrees : AgreesTable c'
  pub slots : c'.slots ≡ write j o c.slots
  pub importing : c'.importing_slots_from ≡ c.importing_slots_from
  pub myself : c'.myself ≡ c.myself
  pub epochs : (p : ℕ) → (c'.heap p).config_epoch ≡ (c.heap p).config_epoch
  pub masters : (p : ℕ) → (c'.heap p).flags.master ≡ (c.heap p).flags.master
  pub slaveofs : (p : ℕ) → (c'.heap p).slaveof ≡ (c.heap p).slaveof

-- What holds of a node and itself, and of `heap p` and `m`, holds of every node and its successor.
pub at_put :
    (Q : Node → Node → Type 0) (heap : ℕ → Node) (p : ℕ) (m : Node)
    → ((n : Node) → Q n n)
    → Q (heap p) m
    → (q : ℕ) → Q (heap q) (write p m heap q)
at_put Q heap p m same new q = elim (Bool-cases (nat_beq q p)) [
  | inl here ↦ rw (here, (nat_beq_iff q p).0 here) new
  | inr other ↦ rw other (same (heap q))
]

-- The table and the bits after one slot of one node has been written.
owner-write :
    (slots : ℕ → Option ℕ) (heap : ℕ → Node) (j p : ℕ) (b : Bool) (o : Option ℕ) (m : Node)
    → ((k q : ℕ) → (slots k ≡ some q) ↔ ((heap q).slots k ≡ true))
    → m.slots ≡ write j b (heap p).slots
    → ((q : ℕ) → q ≢ p → slots j ≢ some q)
    → ((q : ℕ) → (o ≡ some q) ↔ ((q ≡ p) × (b ≡ true)))
    → (k q : ℕ) → (write j o slots k ≡ some q) ↔ ((write p m heap q).slots k ≡ true)
owner-write slots heap j p b o m owner bits mine new k q = elim (Bool-cases (nat_beq q p)) [
  | inl here ↦
      rw (here, bits)
        (elim (Bool-cases (nat_beq k j)) [
          | inl at ↦ rw at (λ e. ((new q).0 e).1, λ e. (new q).1 ((nat_beq_iff q p).0 here, e))
          | inr off ↦ rw off (rw (← (nat_beq_iff q p).0 here) (owner k q))
        ])
  | inr there ↦ rw there (elim (Bool-cases (nat_beq k j)) [
    | inl at ↦
        let ne : q ≢ p = λ e. ground (arith, e, there) in
        rw at (
          λ e. absurd (ne ((new q).0 e).0),
          λ e. absurd (mine q ne ((owner j q).1 (rw ((nat_beq_iff k j).0 at) at e))),
        )
    | inr off ↦ rw off (owner k q)
  ])
]

-- What a node is after `clusterNodeSetSlotBit` where the bit was clear.
abbrev set_bit : Cluster → ℕ → Node → Node
set_bit c slot n = record n {
  slots = write slot true n.slots;
  numslots = n.numslots + 1;
  flags = record n.flags {
    migrate_to = n.flags.migrate_to || nat_beq (n.numslots + 1) 1 && masters_have_slaves c;
  };
}

abbrev clear_bit : ℕ → Node → Node
clear_bit slot n = record n { slots = write slot false n.slots; numslots = n.numslots - 1 }

add_slot-put :
    (c : Cluster) (p j : ℕ)
    → c.slots j ≡ none
    → (c.heap p).slots j ≡ false
    → add_slot p j c
      ≡ (record (put_node p (set_bit c j (c.heap p)) c) { slots = write j (some p) c.slots }, true)
unfolding add_slot node_set_slot_bit
add_slot-put c p j free off = rw (free, add_slot) (rw (off, node_set_slot_bit) refl)

del_slot-put :
    (c : Cluster) (p j : ℕ)
    → c.slots j ≡ some p
    → (c.heap p).slots j ≡ true
    → del_slot j c
      ≡ done (record (put_node p (clear_bit j (c.heap p)) c) { slots = write j none c.slots }, true)
unfolding del_slot node_clear_slot_bit
del_slot-put c p j owned on = rw (owned, del_slot) (rw (on, node_clear_slot_bit) refl)

module _ (c : Cluster) (h : AgreesTable c) (j p : ℕ) (lt : j < cluster_slots) where
  free-clear : c.slots j ≡ none → (c.heap p).slots j ≡ false
  free-clear free = elim (Bool-cases ((c.heap p).slots j)) [
    | inl on ↦ absurd (ground (arith, (h.owner j p).1 on, free))
    | inr off ↦ off
  ]

  SetsSlot-add :
      c.slots j ≡ none
      → SetsSlot j
          (some p)
          c
          (record (put_node p (set_bit c j (c.heap p)) c) { slots = write j (some p) c.slots })
  SetsSlot-add free = record {
    agrees = record {
      owner =
          owner-write c.slots c.heap j p true (some p) (set_bit c j (c.heap p)) h.owner refl
            (λ q ne e. ground (arith, e, free))
            (λ q. (λ e. (sym (some-injective p q e), refl), λ (e, t). ap some (sym e)));
      counted = λ q.
          at_put
            (λ n m.
              n.numslots ≡ count_set n.slots cluster_slots
              → m.numslots ≡ count_set m.slots cluster_slots)
            c.heap p (set_bit c j (c.heap p)) (λ n e. e)
            (λ e.
              omega (arith, e, count_set-set (c.heap p).slots j cluster_slots lt (free-clear free)))
            q (h.counted q);
    };
    slots = refl;
    importing = refl;
    myself = refl;
    epochs = at_put (λ n m. m.config_epoch ≡ n.config_epoch) c.heap p _ (λ n. refl) refl;
    masters = at_put (λ n m. m.flags.master ≡ n.flags.master) c.heap p _ (λ n. refl) refl;
    slaveofs = at_put (λ n m. m.slaveof ≡ n.slaveof) c.heap p _ (λ n. refl) refl;
  }

  SetsSlot-del :
      c.slots j ≡ some p
      → SetsSlot j none c
          (record (put_node p (clear_bit j (c.heap p)) c) { slots = write j none c.slots })
  SetsSlot-del owned =
      let on : (c.heap p).slots j ≡ true = (h.owner j p).0 owned in
      record {
        agrees = record {
          owner =
              owner-write c.slots c.heap j p false none (clear_bit j (c.heap p)) h.owner refl
                (λ q ne e. ne (some-injective q p (sym e ∙ owned)))
                (λ q. (λ e. absurd (ground (arith, e)), λ (e, t). absurd (ground (arith, t))));
          counted = λ q.
              at_put
                (λ n m.
                  n.numslots ≡ count_set n.slots cluster_slots
                  → m.numslots ≡ count_set m.slots cluster_slots)
                c.heap p (clear_bit j (c.heap p)) (λ n e. e)
                (λ e. omega (arith, e, count_set-clear (c.heap p).slots j cluster_slots lt on)) q
                (h.counted q);
        };
        slots = refl;
        importing = refl;
        myself = refl;
        epochs = at_put (λ n m. m.config_epoch ≡ n.config_epoch) c.heap p _ (λ n. refl) refl;
        masters = at_put (λ n m. m.flags.master ≡ n.flags.master) c.heap p _ (λ n. refl) refl;
        slaveofs = at_put (λ n m. m.slaveof ≡ n.slaveof) c.heap p _ (λ n. refl) refl;
      }

  -- A free slot is given to the node, and the table stays right.
  pub add_slot-SetsSlot : c.slots j ≡ none → SetsSlot j (some p) c (add_slot p j c).0
  add_slot-SetsSlot free =
      subst (λ (r : Cluster × Bool). SetsSlot j (some p) c r.0)
        (sym (add_slot-put c p j free (free-clear free))) (SetsSlot-add free)

  -- A slot that is owned is released, and the assertion holds.
  pub del_slot-SetsSlot :
      c.slots j ≡ some p → (c' : Cluster) × (del_slot j c ≡ done (c', true)) × SetsSlot j none c c'
  del_slot-SetsSlot owned =
      (_, del_slot-put c p j owned ((h.owner j p).0 owned), SetsSlot-del owned)

pub del_slot-free : (c : Cluster) (j : ℕ) → c.slots j ≡ none → del_slot j c ≡ done (c, false)
unfolding del_slot
del_slot-free c j free = rw (free, del_slot) refl
