-- ===== src/Cluster/Routing/Crossing.antt =====
-- examples/cluster.c: `getNodeByQuery` on a command with keys of several slots.
use weggli_enhance.Common.{
  ℕ, ◌≡◌, ◌≢◌, refl, sym, ap, ◌∙◌, Bool, true, false, not, ◌&&◌, ◌||◌, List, [], ◌∷◌, none, some,
  nat_beq, bytes_beq, bytes_beq_iff, arith, Any, Bool-cases, inl, inr,
}
use weggli_enhance.Text.{Bytes}
use weggli_enhance.Cluster.{key_hash_slot}
use weggli_enhance.Cluster.State.{Cluster}
use weggli_enhance.Cluster.Routing.{
  cross_slot, Query, Seen, is_null, nothing, seen, stopped, count_missing, scan_first, scan_next,
  scan_keys, scan_commands, get_node_by_query,
}

module _ (crc16 : Bytes → ℕ) (has_key : Bytes → Bool) (c : Cluster) (key : Bytes) where
  -- The loop has seen keys of the first key's slot alone.
  record StartedWith (s : Seen) : Type 0 where
    first : s.firstkey ≡ key
    slot : s.slot ≡ key_hash_slot crc16 key

  count_missing-StartedWith :
      (k : Bytes) (s : Seen) → StartedWith s → StartedWith (count_missing crc16 has_key k s)
  unfolding count_missing
  count_missing-StartedWith k s h =
      elim (Bool-cases ((s.migrating || s.importing) && not (has_key k))) [
        | inl e ↦ rw (e, count_missing) (record { first = h.first; slot = h.slot })
        | inr e ↦ rw (e, count_missing) h
      ]

  -- A key of another slot ends the loop.
  scan_keys-crossing :
      (keys : List Bytes) (s : Seen)
      → StartedWith s
      → Any (λ k. key_hash_slot crc16 k ≢ key_hash_slot crc16 key) keys
      → scan_keys crc16 has_key c keys (seen s) ≡ stopped cross_slot
  unfolding scan_keys scan_next
  scan_keys-crossing [] s h a = absurd a
  scan_keys-crossing (k ∷ keys) s h a = elim (Bool-cases (bytes_beq s.firstkey k)) [
    | inl same ↦
        let at : k ≡ key = sym ((bytes_beq_iff s.firstkey k).0 same) ∙ h.first in
        rw (same, scan_next)
          (elim a [
            | inl off ↦ absurd (off (ap (key_hash_slot crc16) at))
            | inr later ↦
                scan_keys-crossing keys (count_missing crc16 has_key k s)
                  (count_missing-StartedWith k s h) later
          ])
    | inr other ↦ elim (Bool-cases (nat_beq s.slot (key_hash_slot crc16 k))) [
      | inr off ↦ rw (other, scan_next) (rw off (stays_stopped keys))
      | inl at ↦
          let same_slot : key_hash_slot crc16 k ≡ key_hash_slot crc16 key =
            ground (arith, at, h.slot) in
          let s' = record s { multiple_keys = true } in
          rw (other, scan_next)
            (rw at (elim a [
              | inl off ↦ absurd (off same_slot)
              | inr later ↦
                  scan_keys-crossing keys (count_missing crc16 has_key k s')
                    (count_missing-StartedWith k s' (record { first = h.first; slot = h.slot }))
                    later
            ]))
    ]
  ]
    where
      stays_stopped :
          (keys : List Bytes)
          → scan_keys crc16 has_key c keys (stopped cross_slot) ≡ stopped cross_slot
      stays_stopped [] = refl
      stays_stopped (k ∷ keys) = refl

  scan_keys-refused :
      (keys : List Bytes) (n : ℕ)
      → c.slots (key_hash_slot crc16 key) ≡ some n
      → Any (λ k. key_hash_slot crc16 k ≢ key_hash_slot crc16 key) keys
      → scan_keys crc16 has_key c (key ∷ keys) nothing ≡ stopped cross_slot
  unfolding scan_keys scan_first
  scan_keys-refused keys n own a =
      let at = key_hash_slot crc16 key in
      let migrating = nat_beq n c.myself && not (is_null (c.migrating_slots_to at)) in
      let s : Seen = record {
        firstkey = key;
        slot = at;
        node = n;
        migrating = migrating;
        importing = not migrating && not (is_null (c.importing_slots_from at));
        multiple_keys = false;
        missing_keys = 0;
      } in
      let s' = count_missing crc16 has_key key s in
      let first : scan_first crc16 has_key c key ≡ seen s' = rw (own, scan_first) refl in
      ap (λ sc. scan_keys crc16 has_key c keys sc) first
      ∙ scan_keys-crossing keys s'
          (count_missing-StartedWith key s (record { first = refl; slot = refl })) a

  -- A single command whose first key has a slot with an owner, and another key of which is of
  -- another slot, is refused with CROSSSLOT, whatever else holds of the cluster.
  pub get_node_by_query-crossing :
      (q : Query) (keys : List Bytes) (n : ℕ)
      → q.is_exec ≡ false
      → q.keys ≡ key ∷ keys
      → c.slots (key_hash_slot crc16 key) ≡ some n
      → Any (λ k. key_hash_slot crc16 k ≢ key_hash_slot crc16 key) keys
      → get_node_by_query crc16 has_key c q ≡ record { node = none; code = cross_slot; slot = none }
  unfolding get_node_by_query scan_commands
  get_node_by_query-crossing q keys n single e own a =
      rw (single, get_node_by_query) (rw e (rw (scan_keys-refused keys n own a) refl))
