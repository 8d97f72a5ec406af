-- ===== src/Cluster/Runs.antt =====
-- examples/cluster.c: a small cluster on which the operations are run. Node 1 is this one, a master
-- with the slot 3 under the epoch 1; node 2 is another master, with the epoch 2.
use weggli_enhance.Common.{
  ℕ, ◌<◌, ◌≡◌, refl, sym, nat_beq, true, false, [], ◌∷◌, none, some, arith, inl, done,
}
use weggli_enhance.Cluster.State.{no_flags, Node, Cluster, no_reason, cluster_slots}
use weggli_enhance.Cluster.Nodes.{create_node}
use weggli_enhance.Cluster.Table.{add_slot, node_set_slot_bit}
use weggli_enhance.Cluster.Table.Agreement.{AgreesTable, add_slot-SetsSlot, count_set-none}
use weggli_enhance.Cluster.Rebind.{update_slots_config_with}
use weggli_enhance.Cluster.Rebind.Slot.{Takes}
use weggli_enhance.Cluster.Rebind.Owners.{update_slots_config_with-Takes}

-- A master whose name and whose epoch are its address.
abbrev pub master_node : ℕ → Node
master_node p = record (create_node 0 (p ∷ []) (record no_flags { master = true })) {
  config_epoch = p;
}

-- Both nodes, before slot 3 is given to node 1.
abbrev pub two_masters : Cluster
two_masters = record {
  heap = master_node;
  myself = 1;
  nodes = (1 ∷ [], 1) ∷ (2 ∷ [], 2) ∷ [];
  black_list = [];
  slots = λ j. none;
  migrating_slots_to = λ j. none;
  importing_slots_from = λ j. none;
  current_epoch = 2;
  last_vote_epoch = 0;
  is_ok = true;
  size = 2;
  election = record {
    time = 0;
    count = 0;
    sent = false;
    rank = 0;
    epoch = 0;
    cant_failover_reason = no_reason;
  };
  manual = record { end = 0; can_start = false; slave = none; master_offset = 0 };
  health = record { among_minority_time = 0; first_call_time = 0 };
  todo = record {
    handle_failover = false;
    update_state = false;
    save_config = false;
    fsync_config = false;
  };
  events = [];
}

pub two_masters-AgreesTable : AgreesTable two_masters
unfolding create_node
two_masters-AgreesTable = record {
  owner = λ j p. (λ e. absurd (ground (arith, e)), λ e. absurd (ground (arith, e)));
  counted = λ p. sym (count_set-none (λ j. false) cluster_slots (λ k lt e. ground (arith, e)));
}

abbrev pub one_slot : Cluster
one_slot = (add_slot 1 3 two_masters).0

pub one_slot-AgreesTable : AgreesTable one_slot
one_slot-AgreesTable =
    (add_slot-SetsSlot two_masters two_masters-AgreesTable 3 1 (omega arith) refl).agrees

-- Node 2 claims the slot 3 under its newer epoch.
update_slots_config_with-Takes_example :
    (c' : Cluster) × (update_slots_config_with (λ j. false) false 2 2 (λ j. nat_beq j 3) one_slot
      ≡ done c')
    × AgreesTable c'
    × ((j : ℕ) → j < cluster_slots → Takes (λ j. nat_beq j 3) 2 one_slot j → c'.slots j ≡ some 2)
    × ((j : ℕ) → (Takes (λ j. nat_beq j 3) 2 one_slot j → ⊥) → c'.slots j ≡ one_slot.slots j)
unfolding add_slot node_set_slot_bit create_node
update_slots_config_with-Takes_example =
    update_slots_config_with-Takes (λ j. false) false 2 2 (λ j. nat_beq j 3) one_slot
      one_slot-AgreesTable (inl refl) (λ e. omega (arith, e))
