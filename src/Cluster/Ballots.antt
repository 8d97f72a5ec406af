-- ===== src/Cluster/Ballots.antt =====
-- examples/cluster.c: runs in which a vote is asked for. Node 3 is a slave of node 2, which has failed.
use weggli_enhance.Common.{
  ℕ, ◌≤◌, ◌≡◌, refl, Bool, true, false, [], ◌∷◌, Option, none, some, nat_beq, arith, if◌then◌else◌,
  Outcome, done, panic,
}
use weggli_enhance.Text.{Bytes}
use weggli_enhance.Cluster.State.{no_flags, Node, Cluster}
use weggli_enhance.Cluster.Reports.{Settings}
use weggli_enhance.Cluster.Table.{add_slot, node_set_slot_bit}
use weggli_enhance.Cluster.Nodes.{create_node, lookup_node}
use weggli_enhance.Cluster.Votes.{send_failover_auth_if_needed}
use weggli_enhance.Cluster.Packet.{auth_request, Message, Sizes, Arrival}
use weggli_enhance.Cluster.Dispatch.{process_packet}
use weggli_enhance.Cluster.Quiet.{sent_votes}
use weggli_enhance.Cluster.Voting.{count_of}
use weggli_enhance.Cluster.Voting.Steps.{packet, Reaches, start, next, Reaches-once}
use weggli_enhance.Cluster.Runs.{one_slot, master_node}

abbrev pub settings : Settings
settings = record {
  cluster_node_timeout = 10;
  fail_report_validity_mult = 2;
  fail_undo_time_mult = 2;
  require_full_coverage = true;
  slave_validity_factor = 10;
  repl_ping_slave_period = 10;
}

abbrev failed_master : Node
failed_master = record (master_node 2) { flags = record no_flags { master = true; fail = true } }

abbrev orphan : Node
orphan = record (master_node 3) {
  flags = record no_flags { slave = true };
  slaveof = some 2;
  link = some 9;
}

abbrev pub with_slave : Cluster
with_slave = record one_slot {
  heap =
      λ p. if nat_beq p 3 then orphan else if nat_beq p 2 then failed_master else one_slot.heap p;
  nodes = (3 ∷ [], 3) ∷ one_slot.nodes;
}

abbrev pub sizes : Sizes
sizes = record { header = 2000; gossip = 100; fail = 40; publish = 16; update = 2056 }

abbrev pub arrival : Arrival
arrival = record {
  link = 7;
  link_node = none;
  received = 2000;
  proto_ver = 1;
  null_name = 0 ∷ [];
  announces_ip = false;
  socket_ip = none;
  peer_ip = [];
  now = 1000;
  unixtime = 1;
  mf_timeout = 5000;
  clients_paused = false;
  has_subscribers = false;
  keys = λ j. false;
}

-- The request of node 3 in the epoch 5.
abbrev pub request : Message
request = record {
  kind = auth_request;
  totlen = 2000;
  ver = 1;
  sender = 3 ∷ [];
  current_epoch = 5;
  config_epoch = 3;
  offset = 0;
  flags = no_flags;
  is_paused = false;
  force_ack = false;
  myslots = λ j. false;
  slaveof = 2 ∷ [];
  myip = [];
  port = 1;
  cport = 1;
  gossip = [];
  failing = [];
  channel_len = 0;
  message_len = 0;
  channel = [];
  message = [];
  about = [];
  about_epoch = 0;
  about_slots = λ j. false;
}

abbrev no_ip : Bytes → Option Bytes
no_ip ip = none

abbrev same_text : Bytes → Bytes → Bool
same_text a b = false

abbrev heap_end : Cluster → ℕ × Bytes
heap_end c = (9, 9 ∷ [])

abbrev state_of : Outcome (Cluster × Bool) → Cluster
state_of (done r) = r.0
state_of panic = with_slave

abbrev after_request : Cluster
after_request =
    state_of (process_packet no_ip same_text heap_end settings sizes arrival request with_slave)

-- The vote is sent, and a second request in the same epoch is denied.
voted : sent_votes after_request.events ≡ 5 ∷ []
unfolding process_packet lookup_node send_failover_auth_if_needed add_slot node_set_slot_bit
    create_node sent_votes
voted = refl

first_run : Reaches no_ip same_text heap_end with_slave after_request
unfolding process_packet lookup_node send_failover_auth_if_needed add_slot node_set_slot_bit
    create_node
first_run =
    next (start with_slave) (omega arith)
      (packet settings sizes arrival request {b = true} (omega arith) refl)

Reaches-once_example : count_of 5 (sent_votes after_request.events) ≤ 1
unfolding add_slot node_set_slot_bit create_node sent_votes
Reaches-once_example =
    Reaches-once no_ip same_text heap_end with_slave after_request refl (omega arith) first_run 5
