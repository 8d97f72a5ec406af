-- ===== src/Cluster/Routing/Stable.antt =====
-- examples/cluster.c: `getNodeByQuery` on commands on a slot that is not being moved.
use weggli_enhance.Common.{
  ℕ, ◌+◌, ◌≡◌, refl, sym, subst, ap, ◌∙◌, Bool, true, false, not, ◌&&◌, ◌||◌, List, [], ◌∷◌, none,
  some, nat_beq, bytes_beq, if◌then◌else◌, arith, All, Any, Bool-cases, inl, inr,
}
use weggli_enhance.Text.{Bytes}
use weggli_enhance.Cluster.{key_hash_slot}
use weggli_enhance.Cluster.State.{Cluster, points_to, node_is_slave}
use weggli_enhance.Cluster.Routing.{
  served, moved, Answer, Query, Seen, Scan, nothing, seen, stopped, is_null, count_missing,
  scan_first, scan_next, scan_keys, scan_commands, route, get_node_by_query,
}

skipped {ℓ} :
    {A : Type ℓ} (a b d : Bool) (x y : A)
    → a ≡ false
    → b ≡ false
    → (if (a || b) && d then x else y) ≡ y
skipped true b d x y e f = absurd (ground (arith, e))
skipped false true d x y e f = absurd (ground (arith, f))
skipped false false d x y e f = refl

-- The last of the cases of a slot that is not being moved.
last_case {ℓ} :
    {A : Type ℓ} (ok m i p q r : Bool) (x y z w v : A)
    → ok ≡ true
    → m ≡ false
    → i ≡ false
    → (if not ok
        then x
        else if (m || i) && p
        then y
        else if m && q
        then z
        else if i && r
        then w
        else v)
      ≡ v
last_case true false false p q r x y z w v e f g = refl
last_case true false true p q r x y z w v e f g = absurd (ground (arith, g))
last_case true true i p q r x y z w v e f g = absurd (ground (arith, f))
last_case false m i p q r x y z w v e f g = absurd (ground (arith, e))

module _ (crc16 : Bytes → ℕ) (has_key : Bytes → Bool) (c : Cluster) (slot n : ℕ) where
  -- The slot has an owner and is neither imported nor migrated.
  pub record IsStable : Type 0 where
    pub owner : c.slots slot ≡ some n
    pub not_importing : c.importing_slots_from slot ≡ none
    pub not_migrating : c.migrating_slots_to slot ≡ none

  -- What the loops know of keys of this slot.
  record Settled (s : Seen) : Type 0 where
    at_slot : s.slot ≡ slot
    at_node : s.node ≡ n
    not_moving : s.migrating ≡ false
    not_coming : s.importing ≡ false

  abbrev Found : Scan → Type 0
  Found nothing = ⊥
  Found (seen s) = Settled s
  Found (stopped e) = ⊥

  abbrev pub OfSlot : List Bytes → Type 0
  OfSlot = All λ key. key_hash_slot crc16 key ≡ slot

  abbrev pub HasKey : List Bytes → Type 0
  HasKey [] = ⊥
  HasKey (key ∷ keys) = Unit

  count_missing-Settled :
      (key : Bytes) (s : Seen) → Settled s → Settled (count_missing crc16 has_key key s)
  unfolding count_missing
  count_missing-Settled key s h =
      subst Settled
        (sym (
          skipped s.migrating s.importing (not (has_key key))
            (record s { missing_keys = s.missing_keys + 1 }) s h.not_moving h.not_coming))
        h

  scan_first-Found :
      (key : Bytes)
      → IsStable
      → key_hash_slot crc16 key ≡ slot
      → Found (scan_first crc16 has_key c key)
  unfolding scan_first
  scan_first-Found key h e =
      let at = key_hash_slot crc16 key in
      let own : c.slots at ≡ some n = ap c.slots e ∙ h.owner in
      let migrating = nat_beq n c.myself && not (is_null (c.migrating_slots_to at)) in
      let closed : migrating ≡ false =
        rw (ap c.migrating_slots_to e ∙ h.not_migrating) (ground arith) in
      let own_slot : not migrating && not (is_null (c.importing_slots_from at)) ≡ false =
        rw (ap c.importing_slots_from e ∙ h.not_importing) (ground arith) in
      let s : Seen = record {
        firstkey = key;
        slot = at;
        node = n;
        migrating = migrating;
        importing = not migrating && not (is_null (c.importing_slots_from at));
        multiple_keys = false;
        missing_keys = 0;
      } in
      rw (own, scan_first)
        (count_missing-Settled key s
          (record { at_slot = e; at_node = refl; not_moving = closed; not_coming = own_slot }))

  scan_next-Found :
      (key : Bytes) (s : Seen)
      → Settled s
      → key_hash_slot crc16 key ≡ slot
      → Found (scan_next crc16 has_key key s)
  unfolding scan_next
  scan_next-Found key s h e = elim (Bool-cases (bytes_beq s.firstkey key)) [
    | inl same ↦ rw (same, scan_next) (count_missing-Settled key s h)
    | inr other ↦
        let at : nat_beq s.slot (key_hash_slot crc16 key) ≡ true = ground (arith, h.at_slot, e) in
        rw (other, scan_next)
          (rw at (
            count_missing-Settled key (record s { multiple_keys = true })
              (record {
                at_slot = h.at_slot;
                at_node = h.at_node;
                not_moving = h.not_moving;
                not_coming = h.not_coming;
              })))
  ]

  scan_keys-Found :
      (keys : List Bytes) (sc : Scan)
      → Found sc
      → OfSlot keys
      → Found (scan_keys crc16 has_key c keys sc)
  unfolding scan_keys
  scan_keys-Found [] sc h o = h
  scan_keys-Found (key ∷ keys) nothing h o = absurd h
  scan_keys-Found (key ∷ keys) (stopped e) h o = absurd h
  scan_keys-Found (key ∷ keys) (seen s) h (e, o) =
      scan_keys-Found keys (scan_next crc16 has_key key s) (scan_next-Found key s h e) o

  scan_commands-Found :
      (commands : List (List Bytes)) (sc : Scan)
      → Found sc
      → All OfSlot commands
      → Found (scan_commands crc16 has_key c commands sc)
  unfolding scan_commands
  scan_commands-Found [] sc h o = h
  scan_commands-Found (keys ∷ commands) sc h (k, o) =
      scan_commands-Found commands (scan_keys crc16 has_key c keys sc) (scan_keys-Found keys sc h k)
        o

  -- The commands before the first key do nothing.
  scan_commands-start :
      (commands : List (List Bytes))
      → IsStable
      → Any HasKey commands
      → All OfSlot commands
      → Found (scan_commands crc16 has_key c commands nothing)
  unfolding scan_commands scan_keys
  scan_commands-start [] h a o = absurd a
  scan_commands-start ([] ∷ commands) h (inl a) o = absurd a
  scan_commands-start ([] ∷ commands) h (inr a) (k, o) = scan_commands-start commands h a o
  scan_commands-start ((key ∷ keys) ∷ commands) h a ((e, k), o) =
      scan_commands-Found commands (scan_keys crc16 has_key c keys (scan_first crc16 has_key c key))
        (scan_keys-Found keys (scan_first crc16 has_key c key) (scan_first-Found key h e) k) o

  -- Where the command goes: here for a read of a slave's client, and else to the owner.
  abbrev pub stable_answer : Query → Answer
  stable_answer q =
      let me = c.heap c.myself in
      if q.readonly_client && q.readonly_command && node_is_slave me && points_to me.slaveof n
      then record { node = some c.myself; code = served; slot = some slot }
      else record {
        node = some n;
        code = if nat_beq n c.myself then served else moved;
        slot = some slot;
      }

  route-Settled :
      (q : Query) (s : Seen)
      → c.is_ok ≡ true
      → Settled s
      → route crc16 has_key c q s ≡ stable_answer q
  unfolding route
  route-Settled q s ok h =
      let me = c.heap c.myself in
      let last : ℕ → ℕ → Answer = λ i j.
        if q.readonly_client && q.readonly_command && node_is_slave me && points_to me.slaveof j
        then record { node = some c.myself; code = served; slot = some i }
        else record {
          node = some j;
          code = if nat_beq j c.myself then served else moved;
          slot = some i;
        } in
      last_case c.is_ok s.migrating s.importing q.is_migrate (not (nat_beq s.missing_keys 0))
        q.asking _ _ _ _ _ ok h.not_moving h.not_coming
      ∙ ap (λ i. last i s.node) h.at_slot
      ∙ ap (λ j. last slot j) h.at_node

  answer-Found :
      (q : Query) (sc : Scan)
      → c.is_ok ≡ true
      → Found sc
      → (elim sc as (λ x. Answer) [
        | nothing ↦ record { node = some c.myself; code = served; slot = none }
        | seen s ↦ route crc16 has_key c q s
        | stopped e ↦ record { node = none; code = e; slot = none }
      ])
        ≡ stable_answer q
  answer-Found q nothing ok h = absurd h
  answer-Found q (seen s) ok h = route-Settled q s ok h
  answer-Found q (stopped e) ok h = absurd h

  -- The commands of a transaction, or the command itself.
  abbrev pub all_commands : Query → List (List Bytes)
  all_commands q = if q.is_exec then q.commands else q.keys ∷ []

  -- Where the cluster is up, commands with at least one key, all of whose keys are of one slot that
  -- has an owner and is neither imported nor migrated, are sent to the owner, with MOVED where that
  -- is another node; a read of a client of a slave of the owner is served here. EXEC is the one of a
  -- transaction.
  pub get_node_by_query-stable :
      (q : Query)
      → IsStable
      → c.is_ok ≡ true
      → q.is_exec && not q.in_multi ≡ false
      → Any HasKey (all_commands q)
      → All OfSlot (all_commands q)
      → get_node_by_query crc16 has_key c q ≡ stable_answer q
  unfolding get_node_by_query
  get_node_by_query-stable q h ok exec some_key one_slot =
      rw (exec, get_node_by_query)
        (answer-Found q (scan_commands crc16 has_key c (all_commands q) nothing) ok
          (scan_commands-start (all_commands q) h some_key one_slot))
