-- ===== src/Cluster/Trials.antt =====
-- examples/cluster.c: runs about epochs, failures and lengths.
use weggli_enhance.Common.{
  none, Bool, ◌+◌, ℕ, ◌*◌, ◌<◌, ◌≤◌, ◌≡◌, ◌≢◌, refl, ap, sym, Bool-cases, done, true, false, [],
  ◌∷◌, some, nat_beq, arith, if◌then◌else◌, Member, ◌⊎◌, inl, inr, ◌↔◌,
}
use weggli_enhance.Text.{Bytes}
use weggli_enhance.Cluster.State.{no_flags, Cluster, cluster_slots, no_reason}
use weggli_enhance.Cluster.Nodes.{create_node}
use weggli_enhance.Cluster.Epochs.{
  blacklist_ttl, blacklist_add_node, blacklist_exists, bump_config_epoch, handle_epoch_collision,
}
use weggli_enhance.Cluster.Failing.{mark_node_as_failing_if_needed}
use weggli_enhance.Cluster.Forgotten.{blacklist_add_node-exists}
use weggli_enhance.Cluster.Newest.{IsNewest, bump_config_epoch-IsNewest}
use weggli_enhance.Cluster.Collisions.{Collides, Moved, handle_epoch_collision-one}
use weggli_enhance.Cluster.Suspects.{votes_against, mark_node_as_failing_if_needed-majority}
use weggli_enhance.Cluster.Table.{add_slot, node_set_slot_bit}
use weggli_enhance.Cluster.Table.Agreement.{AgreesTable, add_slot-SetsSlot, count_set-none}
use weggli_enhance.Cluster.Failover.{
  Surroundings, replace_your_master, handle_slave_failover, auth_timeout, is_data_old,
}
use weggli_enhance.Cluster.Takeover.Election.{Elected, handle_slave_failover-wins}
use weggli_enhance.Cluster.Takeover.Master.{replace_your_master-AgreesTable}
use weggli_enhance.Cluster.{key_hash_slot}
use weggli_enhance.Cluster.Routing.{Query, served, cross_slot, get_node_by_query}
use weggli_enhance.Cluster.Routing.Crossing.{get_node_by_query-crossing}
use weggli_enhance.Cluster.Routing.Stable.{get_node_by_query-stable}
use weggli_enhance.Cluster.Runs.{one_slot, master_node, two_masters}
use weggli_enhance.Cluster.Ballots.{settings}

-- Node 1 has the epoch 1, node 2 the epoch 2.
bump_config_epoch-IsNewest_example :
    (((bump_config_epoch two_masters).1 ≡ true) × IsNewest (bump_config_epoch two_masters).0)
    ⊎ ((bump_config_epoch two_masters ≡ (two_masters, false))
        × ((e : Bytes × ℕ)
            → Member e two_masters.nodes
            → (two_masters.heap e.1).config_epoch
              ≤ (two_masters.heap two_masters.myself).config_epoch))
unfolding create_node
bump_config_epoch-IsNewest_example = bump_config_epoch-IsNewest two_masters below (omega arith)
  where
    below :
        (e : Bytes × ℕ)
        → Member e two_masters.nodes
        → (two_masters.heap e.1).config_epoch ≤ two_masters.current_epoch
    below e (inl same) = let q : 1 ≡ e.1 = ap (λ (x : Bytes × ℕ). x.1) same in omega (arith, q)
    below e (inr (inl same)) =
        let q : 2 ≡ e.1 = ap (λ (x : Bytes × ℕ). x.1) same in omega (arith, q)
    below e (inr (inr m)) = absurd m

-- Both nodes have the epoch 2.
abbrev same_epochs : ℕ → Cluster
same_epochs me = record two_masters {
  heap = λ p. record (master_node p) { config_epoch = 2 };
  myself = me;
}

collides : (s me : ℕ) → Collides s (same_epochs me)
unfolding create_node
collides s me = record { same_epoch = refl; sender_master = refl; own_master = refl }

handle_epoch_collision-one_example :
    ((handle_epoch_collision 2 (same_epochs 1) ≡ same_epochs 1)
      × Moved (same_epochs 2) (handle_epoch_collision 1 (same_epochs 2)))
    ⊎ (Moved (same_epochs 1) (handle_epoch_collision 2 (same_epochs 1))
        × (handle_epoch_collision 1 (same_epochs 2) ≡ same_epochs 2))
unfolding create_node
handle_epoch_collision-one_example =
    handle_epoch_collision-one 2 1 (same_epochs 1) (same_epochs 2) (collides 2 1) (collides 1 2)
      refl refl refl (λ e. ground (arith, e)) (omega arith) (omega arith)

-- Node 2 is suspected, and one other master has reported it.
abbrev suspected : Cluster
suspected = record two_masters {
  heap = λ p. record (master_node p) {
    flags = record no_flags { master = true; pfail = true };
    fail_reports = (record { node = 5; time = 990 }) ∷ [];
  };
}

mark_node_as_failing_if_needed-majority_example :
    (((mark_node_as_failing_if_needed settings 1000 2 suspected).heap 2).flags.fail ≡ true)
    ↔ (((suspected.heap 2).flags.pfail ≡ true) × (2 < 2 * votes_against settings 1000 2 suspected))
mark_node_as_failing_if_needed-majority_example =
    mark_node_as_failing_if_needed-majority settings 1000 2 suspected refl

-- Node 1 is a slave of node 2, which has the slot 3.
abbrev pub slave_view : Cluster
slave_view = record two_masters {
  heap = λ p.
      if nat_beq p 1
      then record (create_node 0 (1 ∷ []) (record no_flags { slave = true })) { slaveof = some 2 }
      else record (create_node 0 (2 ∷ []) (record no_flags { master = true; fail = true })) {
        slaves = 1 ∷ [];
      };
}

slave_view-AgreesTable : AgreesTable slave_view
unfolding create_node
slave_view-AgreesTable = record {
  owner = λ j p. elim (Bool-cases (nat_beq p 1)) [
    | inl e ↦ rw e (λ q. absurd (ground (arith, q)), λ q. absurd (ground (arith, q)))
    | inr e ↦ rw e (λ q. absurd (ground (arith, q)), λ q. absurd (ground (arith, q)))
  ];
  counted = λ p. elim (Bool-cases (nat_beq p 1)) [
    | inl e ↦ rw e (sym (count_set-none (λ j. false) cluster_slots (λ k lt q. ground (arith, q))))
    | inr e ↦ rw e (sym (count_set-none (λ j. false) cluster_slots (λ k lt q. ground (arith, q))))
  ];
}

abbrev pub orphaned : Cluster
orphaned = (add_slot 2 3 slave_view).0

pub orphaned-AgreesTable : AgreesTable orphaned
orphaned-AgreesTable =
    (add_slot-SetsSlot slave_view slave_view-AgreesTable 3 2 (omega arith) refl).agrees

abbrev pub surroundings : Surroundings
surroundings = record {
  now = 30000;
  unixtime = 30;
  random = 7;
  clients_paused = false;
  is_connected = false;
  last_interaction = 29;
  repl_down_since = 30;
  slave_offset = 4;
}

replace_your_master-AgreesTable_example :
    (c' : Cluster) × (replace_your_master settings surroundings orphaned ≡ done c')
    × AgreesTable c'
    × ((k : ℕ) → k < cluster_slots → orphaned.slots k ≡ some 2 → c'.slots k ≡ some 1)
    × ((k : ℕ) → orphaned.slots k ≢ some 2 → c'.slots k ≡ orphaned.slots k)
    × ((c'.heap 1).flags.master ≡ true)
    × ((c'.heap 1).config_epoch ≡ 0)
unfolding add_slot node_set_slot_bit create_node
replace_your_master-AgreesTable_example =
    replace_your_master-AgreesTable settings surroundings orphaned 2 orphaned-AgreesTable refl refl

-- Node 2 is forgotten at the time 100.
blacklist_add_node-exists_example :
    ((blacklist_exists 160 (2 ∷ []) (blacklist_add_node 90 100 2 two_masters)).1 ≡ true)
    ↔ (160 ≤ 100 + blacklist_ttl)
unfolding create_node
blacklist_add_node-exists_example = blacklist_add_node-exists 90 100 160 2 two_masters tt

-- Node 1 has asked for votes in the epoch 4, and has two of them.
abbrev candidate : Cluster
candidate = record orphaned {
  election = record {
    time = 29990;
    count = 2;
    sent = true;
    rank = 0;
    epoch = 4;
    cant_failover_reason = no_reason;
  };
}

candidate-AgreesTable : AgreesTable candidate
candidate-AgreesTable = record {
  owner = orphaned-AgreesTable.owner;
  counted = orphaned-AgreesTable.counted;
}

candidate-Elected : Elected settings surroundings 2 candidate
unfolding add_slot node_set_slot_bit create_node auth_timeout is_data_old
candidate-Elected = record {
  slave = refl;
  follows = refl;
  failed = refl;
  serves = λ e. omega (arith, e);
  fresh = refl;
  asked = refl;
  begun = omega arith;
  in_time = omega arith;
  majority = omega arith;
}

handle_slave_failover-wins_example :
    (c' : Cluster) × (handle_slave_failover settings surroundings candidate ≡ done c')
    × AgreesTable c'
    × ((k : ℕ) → k < cluster_slots → candidate.slots k ≡ some 2 → c'.slots k ≡ some 1)
    × ((k : ℕ) → candidate.slots k ≢ some 2 → c'.slots k ≡ candidate.slots k)
    × ((c'.heap 1).flags.master ≡ true)
    × (4 ≤ (c'.heap 1).config_epoch)
unfolding add_slot node_set_slot_bit create_node
handle_slave_failover-wins_example =
    handle_slave_failover-wins settings surroundings 2 candidate candidate-Elected
      candidate-AgreesTable

abbrev no_keys : Bytes → Bool
no_keys key = false

-- A transaction of two commands on one key, whose checksum is 3, on the cluster in which node 1 has
-- the slot 3.
abbrev transaction : Query
transaction = record {
  is_exec = true;
  in_multi = true;
  commands = [] ∷ ((7 ∷ []) ∷ []) ∷ ((7 ∷ []) ∷ []) ∷ [];
  keys = [];
  is_migrate = false;
  asking = false;
  readonly_client = false;
  readonly_command = false;
}

get_node_by_query-stable_example :
    get_node_by_query (λ key. 3) no_keys one_slot transaction
    ≡ record { node = some 1; code = served; slot = some 3 }
unfolding add_slot node_set_slot_bit create_node key_hash_slot
get_node_by_query-stable_example =
    get_node_by_query-stable (λ key. 3) no_keys one_slot 3 1 transaction
      (record { owner = refl; not_importing = refl; not_migrating = refl }) refl refl (inr (inl tt))
      (tt, ((refl, tt), ((refl, tt), tt)))

-- A command on two keys, whose checksums are their first bytes.
abbrev two_slots : Query
two_slots = record transaction { is_exec = false; keys = (3 ∷ []) ∷ (4 ∷ []) ∷ [] }

abbrev first_byte : Bytes → ℕ
first_byte [] = 0
first_byte (b ∷ bs) = b

get_node_by_query-crossing_example :
    get_node_by_query first_byte no_keys one_slot two_slots
    ≡ record { node = none; code = cross_slot; slot = none }
unfolding add_slot node_set_slot_bit create_node key_hash_slot
get_node_by_query-crossing_example =
    get_node_by_query-crossing first_byte no_keys one_slot (3 ∷ []) two_slots ((4 ∷ []) ∷ []) 1 refl
      refl refl (inl (λ e. omega (arith, e)))
