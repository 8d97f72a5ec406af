-- ===== src/Cluster/State.antt =====
-- The data of examples/cluster.c: nodes, links to them by address, and the state of the cluster as
-- one node sees it. Memory is a function from addresses; a set of flag bits is a record. The header
-- with the fields is not in the repository: they are those that the file initialises in
-- `createClusterNode` and `clusterInit`.
use weggli_enhance.Common.{
  ℕ, ◌+◌, ◌%◌, ◌^◌, Bool, true, false, List, [], ◌∷◌, ◌++◌, Option, none, some, nat_beq,
  if◌then◌else◌,
}
use weggli_enhance.Text.{Bytes}

-- The `CLUSTER_NODE_*` bits.
pub record Flags : Type 0 where
  pub myself : Bool
  pub master : Bool
  pub slave : Bool
  pub pfail : Bool
  pub fail : Bool
  pub noaddr : Bool
  pub handshake : Bool
  pub meet : Bool
  pub migrate_to : Bool
  pub nofailover : Bool

abbrev pub no_flags : Flags
no_flags = record {
  myself = false;
  master = false;
  slave = false;
  pfail = false;
  fail = false;
  noaddr = false;
  handshake = false;
  meet = false;
  migrate_to = false;
  nofailover = false;
}

-- `clusterNodeFailReport`
pub record FailReport : Type 0 where
  pub node : ℕ
  pub time : ℕ

-- `clusterNode`. The bitmap `slots` is the set of its positions; `slaves` is the array with
-- `numslaves` entries; a link is its address.
pub record Node : Type 0 where
  pub name : Bytes
  pub ctime : ℕ
  pub config_epoch : ℕ
  pub flags : Flags
  pub slots : ℕ → Bool
  pub numslots : ℕ
  pub slaves : List ℕ
  pub slaveof : Option ℕ
  pub ping_sent : ℕ
  pub pong_received : ℕ
  pub fail_time : ℕ
  pub link : Option ℕ
  pub ip : Bytes
  pub port : ℕ
  pub cport : ℕ
  pub fail_reports : List FailReport
  pub voted_time : ℕ
  pub orphaned_time : ℕ
  pub repl_offset_time : ℕ
  pub repl_offset : ℕ

-- Why a slave cannot fail over.
pub data Reason : Type 0 where
  no_reason data_age waiting_delay expired waiting_votes : Reason

-- The `failover_auth_*` fields.
pub record Election : Type 0 where
  pub time : ℕ
  pub count : ℕ
  pub sent : Bool
  pub rank : ℕ
  pub epoch : ℕ
  pub cant_failover_reason : Reason

-- The `mf_*` fields.
pub record ManualFailover : Type 0 where
  pub end : ℕ
  pub can_start : Bool
  pub slave : Option ℕ
  pub master_offset : ℕ

-- `todo_before_sleep`
pub record Todo : Type 0 where
  pub handle_failover : Bool
  pub update_state : Bool
  pub save_config : Bool
  pub fsync_config : Bool

-- What a handler does outside of the state, in order: what it sends, saves and closes, and what it
-- tells the replication and the data set.
pub data Event : Type 0 where
  sent_failover_auth : (node epoch : ℕ) → Event
  requested_failover_auth : ℕ → Event
  broadcast_fail : Bytes → Event
  broadcast_pong : Bool → Event
  saved_config : Event
  closed_link : ℕ → Event
  replicate : Bytes → ℕ → Event
  stopped_replication : Event
  unpaused_clients : Event
  deleted_keys : ℕ → Event
  sent_pong : ℕ → Event
  sent_update : (link about : ℕ) → Event
  published : Bytes → Bytes → Event
  paused_clients : ℕ → Event

-- The static variables of `clusterUpdateState`.
pub record Health : Type 0 where
  pub among_minority_time : ℕ
  pub first_call_time : ℕ

-- `clusterState`, with the memory of the nodes. `is_ok` is `state == CLUSTER_OK`.
pub record Cluster : Type 0 where
  pub heap : ℕ → Node
  pub myself : ℕ
  pub nodes : List (Bytes × ℕ)
  pub black_list : List (Bytes × ℕ)
  pub slots : ℕ → Option ℕ
  pub migrating_slots_to : ℕ → Option ℕ
  pub importing_slots_from : ℕ → Option ℕ
  pub current_epoch : ℕ
  pub last_vote_epoch : ℕ
  pub is_ok : Bool
  pub size : ℕ
  pub election : Election
  pub manual : ManualFailover
  pub health : Health
  pub todo : Todo
  pub events : List Event

-- `CLUSTER_SLOTS`
abbrev pub cluster_slots : ℕ
cluster_slots = 16384

-- Memory with another value at an address.
abbrev pub write {ℓ} : {A : Type ℓ} → ℕ → A → (ℕ → A) → ℕ → A
write p x m a = if nat_beq a p then x else m a

-- `*p = n`
abbrev pub put_node : ℕ → Node → Cluster → Cluster
put_node p n c = record c { heap = write p n c.heap }

abbrev pub emit : Event → Cluster → Cluster
emit e c = record c { events = c.events ++ e ∷ [] }

-- `p == q` of a pointer that may be null.
abbrev pub points_to : Option ℕ → ℕ → Bool
points_to none p = false
points_to (some q) p = nat_beq q p

-- `x++` of a `uint64_t`
abbrev pub increment : ℕ → ℕ
increment n = (n + 1) % 2 ^ 64

abbrev pub node_is_master : Node → Bool
node_is_master n = n.flags.master

abbrev pub node_is_slave : Node → Bool
node_is_slave n = n.flags.slave

abbrev pub node_timed_out : Node → Bool
node_timed_out n = n.flags.pfail

abbrev pub node_failed : Node → Bool
node_failed n = n.flags.fail

abbrev pub node_in_handshake : Node → Bool
node_in_handshake n = n.flags.handshake

-- `clusterDoBeforeSleep(CLUSTER_TODO_SAVE_CONFIG)`
abbrev pub save : Cluster → Cluster
save c = record c { todo = record c.todo { save_config = true } }

-- `clusterDoBeforeSleep(CLUSTER_TODO_SAVE_CONFIG | CLUSTER_TODO_UPDATE_STATE)`
abbrev pub save_and_update : Cluster → Cluster
save_and_update c = record c { todo = record c.todo { save_config = true; update_state = true } }

-- `clusterDoBeforeSleep(CLUSTER_TODO_SAVE_CONFIG | CLUSTER_TODO_FSYNC_CONFIG)`
abbrev pub save_and_sync : Cluster → Cluster
save_and_sync c = record c { todo = record c.todo { save_config = true; fsync_config = true } }

-- All three bits of `clusterDoBeforeSleep`.
abbrev pub save_update_and_sync : Cluster → Cluster
save_update_and_sync c = record c {
  todo = record c.todo { save_config = true; update_state = true; fsync_config = true };
}
