-- ===== src/Cluster.antt =====
-- examples/cluster.c. This module has the hash slots of keys, `keyHashSlot`: of a key with a part in
-- braces, that part counts alone. `crc16` is a parameter; a key is the list of its `keylen` bytes.
-- `State` has the data of the cluster, and the other modules have its operations.
pub mod Slots
pub mod State
pub mod Reports
pub mod Table
pub mod Nodes
pub mod Epochs
pub mod Failing
pub mod Handshake
pub mod Roles
pub mod Gossip
pub mod Rebind
pub mod Votes
pub mod Health
pub mod Failover
pub mod Packet
pub mod Pings
pub mod Configs
pub mod Dispatch
pub mod Quiet
pub mod Forgotten
pub mod Lengths
pub mod Newest
pub mod Collisions
pub mod Suspects
pub mod Takeover
pub mod Voting
pub mod Routing
pub mod Runs
pub mod Ballots
pub mod Trials
pub mod Tests
use weggli_enhance.Common.{
  ℕ, zero, suc, ◌+◌, ◌-◌, ◌%◌, ◌^◌, Bool, true, false, ◌||◌, List, [], ◌∷◌, arith, nat_beq,
  if◌then◌else◌, length, take, drop,
}
use weggli_enhance.Text.{Bytes}

-- The loop that looks for a byte; the length where there is none.
unfoldable pub index_of : ℕ → Bytes → ℕ
index_of b [] = 0
index_of b (c ∷ s) = let rest = index_of b s in if nat_beq c b then 0 else suc rest

-- `& 0x3FFF` keeps 14 bits.
unfoldable pub key_hash_slot : (Bytes → ℕ) → Bytes → ℕ
unfolding index_of
key_hash_slot crc16 key =
    let s = index_of b'{' key in
    if nat_beq s (length key)
    then crc16 key % 2 ^ 14
    else let e = s + 1 + index_of b'}' (drop (s + 1) key) in
      if nat_beq e (length key) || nat_beq e (s + 1)
      then crc16 key % 2 ^ 14
      else crc16 (take (e - s - 1) (drop (s + 1) key)) % 2 ^ 14
