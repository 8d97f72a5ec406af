-- ===== src/Cluster/Rebind/Loop.antt =====
-- examples/cluster.c: the loop of `clusterUpdateSlotsConfigWith` over the slots.
use weggli_enhance.Common.{
  ℕ, zero, suc, ◌+◌, ◌<◌, ◌≤◌, ◌≡◌, refl, sym, subst, ap, ◌∙◌, Bool, true, false, not, ◌||◌, List,
  ◌∷◌, Option, none, some, some-injective, arith, nat_beq, nat_beq_iff, ltb→lt, lt→ltb, Outcome,
  done, Bool-cases, Option-cases, inl, inr, ◌↔◌, ◌>>=◌,
}
use weggli_enhance.Cluster.State.{Cluster, cluster_slots, points_to}
use weggli_enhance.Cluster.Table.{slots_from}
use weggli_enhance.Cluster.Table.Agreement.{AgreesTable}
use weggli_enhance.Cluster.Rebind.{Rebinding, same_pointer, is_outdated, rebind_slot, rebind_slots}
use weggli_enhance.Cluster.Rebind.Slot.{
  Takes, Same, Same-trans, Same-refl, Moves, rebind_slot-Moves,
}

-- The loop over the slots from `start` on, `n` of them.
pub record Rebinds (claimed : ℕ → Bool) (sender epoch start n : ℕ) (c c' : Cluster) : Type 0 where
  pub agrees : AgreesTable c'
  pub same : Same c c'
  pub taken :
      (k : ℕ) → start ≤ k → k < start + n → Takes claimed epoch c k → c'.slots k ≡ some sender
  pub kept :
      (k : ℕ) → (start ≤ k → k < start + n → Takes claimed epoch c k → ⊥) → c'.slots k ≡ c.slots k

abbrev skips : (ℕ → Bool) → ℕ → ℕ → Cluster → ℕ → Bool
skips claimed sender epoch c j =
    not (claimed j)
    || points_to (c.slots j) sender
    || not (same_pointer (c.importing_slots_from j) none)
    || not (is_outdated epoch j c)

same_pointer-none : (o : Option ℕ) → (same_pointer o none ≡ true) ↔ (o ≡ none)
same_pointer-none none = (λ e. refl, λ e. refl)
same_pointer-none (some p) = (λ e. absurd (ground (arith, e)), λ e. absurd (ground (arith, e)))

points_to-some : (o : Option ℕ) (p : ℕ) → (points_to o p ≡ true) ↔ (o ≡ some p)
points_to-some none p = (λ e. absurd (ground (arith, e)), λ e. absurd (ground (arith, e)))
points_to-some (some q) p =
    (λ e. ap some ((nat_beq_iff q p).0 e), λ e. (nat_beq_iff q p).1 (some-injective q p e))

is_outdated_iff :
    (epoch j : ℕ) (c : Cluster)
    → (is_outdated epoch j c ≡ true)
      ↔ ((owner : ℕ) → c.slots j ≡ some owner → (c.heap owner).config_epoch < epoch)
unfolding is_outdated
is_outdated_iff epoch j c = elim (Option-cases (c.slots j)) [
  | inl free ↦ rw (free, is_outdated) (λ e o f. absurd (ground (arith, f)), λ h. refl)
  | inr (p, owned) ↦
      rw (owned, is_outdated)
        (
          λ e o f.
              subst (λ z. (c.heap z).config_epoch < epoch) (some-injective p o f) (ltb→lt _ _ e),
          λ h. lt→ltb _ _ (h p refl),
        )
]

or-false : (a b : Bool) → (a || b) ≡ false → (a ≡ false) × (b ≡ false)
or-false a b h = ground (arith, h)

not-false : (a : Bool) → not a ≡ false → a ≡ true
not-false a h = ground (arith, h)

skips-false :
    (claimed : ℕ → Bool) (sender epoch : ℕ) (c : Cluster) (j : ℕ)
    → skips claimed sender epoch c j ≡ false
    → Takes claimed epoch c j
skips-false claimed sender epoch c j h =
    let (h1, free) = or-false _ _ h in
    let (h2, imp) = or-false _ _ h1 in
    let (cl, own) = or-false _ _ h2 in
    record {
      is_claimed = not-false _ cl;
      not_importing = (same_pointer-none (c.importing_slots_from j)).0 (not-false _ imp);
      outdated = (is_outdated_iff epoch j c).0 (not-false _ free);
    }

skips-true :
    (claimed : ℕ → Bool) (sender epoch : ℕ) (c : Cluster) (j : ℕ)
    → skips claimed sender epoch c j ≡ true
    → Takes claimed epoch c j
    → c.slots j ≡ some sender
skips-true claimed sender epoch c j h t = (points_to-some (c.slots j) sender).0 (
    ground (
      arith,
      h,
      t.is_claimed,
      (same_pointer-none (c.importing_slots_from j)).1 t.not_importing,
      (is_outdated_iff epoch j c).1 t.outdated,
    ))

module _ (keys : ℕ → Bool) (sender epoch : ℕ) (claimed : ℕ → Bool) (curmaster : Option ℕ) where
  Takes-Moves :
      (j k : ℕ) (c c1 : Cluster)
      → Moves sender j c c1
      → nat_beq k j ≡ false
      → Takes claimed epoch c1 k ↔ Takes claimed epoch c k
  Takes-Moves j k c c1 m off =
      let same_slot = m.others k off in
      let imp = ap (λ (t : ℕ → Option ℕ). t k) m.same.importing in
      (
        λ t. record {
          is_claimed = t.is_claimed;
          not_importing = sym imp ∙ t.not_importing;
          outdated = λ o e. subst (λ z. z < epoch) (m.same.epochs o) (t.outdated o (same_slot ∙ e));
        },
        λ t. record {
          is_claimed = t.is_claimed;
          not_importing = imp ∙ t.not_importing;
          outdated = λ o e.
              subst (λ z. z < epoch) (sym (m.same.epochs o)) (t.outdated o (sym same_slot ∙ e));
        },
      )

  Rebinds-skip :
      (start n : ℕ) (c c' : Cluster)
      → (Takes claimed epoch c start → c.slots start ≡ some sender)
      → Rebinds claimed sender epoch (suc start) n c c'
      → Rebinds claimed sender epoch start (suc n) c c'
  Rebinds-skip start n c c' own h = record {
    agrees = h.agrees;
    same = h.same;
    taken = λ k le lt t. elim (Bool-cases (nat_beq k start)) [
      | inl at ↦
          let e = (nat_beq_iff k start).0 at in
          h.kept k (λ le' lt' t'. absurd (omega (arith, e, le')))
          ∙ subst (λ z. c.slots z ≡ some sender) (sym e) (own (subst (Takes claimed epoch c) e t))
      | inr off ↦ h.taken k (ground (arith, le, off)) (omega (arith, lt)) t
    ];
    kept = λ k out. h.kept k (λ le lt t. out (omega (arith, le)) (omega (arith, lt)) t);
  }

  Rebinds-move :
      (start n : ℕ) (c c1 c' : Cluster)
      → Takes claimed epoch c start
      → Moves sender start c c1
      → Rebinds claimed sender epoch (suc start) n c1 c'
      → Rebinds claimed sender epoch start (suc n) c c'
  Rebinds-move start n c c1 c' takes m h = record {
    agrees = h.agrees;
    same = Same-trans c c1 c' m.same h.same;
    taken = λ k le lt t. elim (Bool-cases (nat_beq k start)) [
      | inl at ↦
          let e = (nat_beq_iff k start).0 at in
          h.kept k (λ le' lt' t'. absurd (omega (arith, e, le')))
          ∙ subst (λ z. c1.slots z ≡ some sender) (sym e) m.here
      | inr off ↦
          h.taken k (ground (arith, le, off)) (omega (arith, lt))
            ((Takes-Moves start k c c1 m off).1 t)
    ];
    kept = λ k out. elim (Bool-cases (nat_beq k start)) [
      | inl at ↦
          let e = (nat_beq_iff k start).0 at in
          absurd (
            out (omega (arith, e)) (omega (arith, e)) (subst (Takes claimed epoch c) (sym e) takes))
      | inr off ↦
          h.kept k (λ le lt t.
            out (omega (arith, le)) (omega (arith, lt)) ((Takes-Moves start k c c1 m off).0 t))
          ∙ m.others k off
    ];
  }

  rebind_slots-next :
      (j : ℕ) (js : List ℕ) (r : Rebinding)
      → skips claimed sender epoch r.cluster j ≡ true
      → rebind_slots keys sender epoch claimed curmaster (j ∷ js) r
        ≡ rebind_slots keys sender epoch claimed curmaster js r
  unfolding rebind_slots
  rebind_slots-next j js r e =
      ap
        (λ b. elim b as (λ x. Outcome Rebinding) [
          | true ↦ rebind_slots keys sender epoch claimed curmaster js r
          | false ↦ do
            r' ← rebind_slot keys sender curmaster j r
            rebind_slots keys sender epoch claimed curmaster js r'
        ])
        e

  rebind_slots-step :
      (j : ℕ) (js : List ℕ) (r r' : Rebinding)
      → skips claimed sender epoch r.cluster j ≡ false
      → rebind_slot keys sender curmaster j r ≡ done r'
      → rebind_slots keys sender epoch claimed curmaster (j ∷ js) r
        ≡ rebind_slots keys sender epoch claimed curmaster js r'
  unfolding rebind_slots
  rebind_slots-step j js r r' e f =
      ap
        (λ b. elim b as (λ x. Outcome Rebinding) [
          | true ↦ rebind_slots keys sender epoch claimed curmaster js r
          | false ↦ do
            r1 ← rebind_slot keys sender curmaster j r
            rebind_slots keys sender epoch claimed curmaster js r1
        ])
        e
      ∙ rw f refl

  pub rebind_slots-Rebinds :
      (start n : ℕ) (r : Rebinding)
      → AgreesTable r.cluster
      → start + n ≤ cluster_slots
      → (r' : Rebinding) × (rebind_slots keys sender epoch claimed curmaster (slots_from start n) r
          ≡ done r')
        × Rebinds claimed sender epoch start n r.cluster r'.cluster
  unfolding slots_from rebind_slots
  rebind_slots-Rebinds start zero r h le = (
    r,
    refl,
    record {
      agrees = h;
      same = Same-refl r.cluster;
      taken = λ k ge lt t. absurd (omega (arith, ge, lt));
      kept = λ k out. refl;
    },
  )
  rebind_slots-Rebinds start (suc n) r h le =
      elim (Bool-cases (skips claimed sender epoch r.cluster start)) [
        | inl skip ↦
            let (r', e, rest) = rebind_slots-Rebinds (suc start) n r h (omega (arith, le)) in
            (
              r',
              rebind_slots-next start (slots_from (suc start) n) r skip ∙ e,
              Rebinds-skip start n r.cluster r'.cluster
                  (skips-true claimed sender epoch r.cluster start skip) rest,
            )
        | inr take ↦
            let (r1, e1, m, en) =
              rebind_slot-Moves sender start (omega (arith, le)) keys curmaster r h in
            let (r', e, rest) =
              rebind_slots-Rebinds (suc start) n r1 m.agrees (omega (arith, le)) in
            (
              r',
              rebind_slots-step start (slots_from (suc start) n) r r1 take e1 ∙ e,
              Rebinds-move start n r.cluster r1.cluster r'.cluster
                  (skips-false claimed sender epoch r.cluster start take) m rest,
            )
      ]
