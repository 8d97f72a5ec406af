-- ===== src/Cluster/Epochs.antt =====
-- examples/cluster.c: the configuration epochs, and the black list of forgotten nodes. The time that
-- an entry lives is `CLUSTER_BLACKLIST_TTL`.
use weggli_enhance.Common.{
  ℕ, ◌+◌, Bool, true, false, not, ◌&&◌, ◌||◌, List, [], ◌∷◌, none, some, nat_beq, ltb,
  if◌then◌else◌, lookup, insert, bytes_eq, filter,
}
use weggli_enhance.Text.{Bytes}
use weggli_enhance.Cluster.State.{
  Node, Cluster, saved_config, put_node, emit, increment, save_and_sync, node_is_master,
}

-- The loop of `clusterGetMaxEpoch` over the nodes.
unfoldable pub max_epoch_from : (ℕ → Node) → List (Bytes × ℕ) → ℕ → ℕ
max_epoch_from heap [] max = max
max_epoch_from heap ((name, p) ∷ d) max =
    max_epoch_from heap d (if ltb max (heap p).config_epoch then (heap p).config_epoch else max)

unfoldable pub get_max_epoch : Cluster → ℕ
unfolding max_epoch_from
get_max_epoch c =
    let max = max_epoch_from c.heap c.nodes 0 in
    if ltb max c.current_epoch then c.current_epoch else max

-- `currentEpoch++; myself->configEpoch = currentEpoch`
unfoldable pub take_new_epoch : Cluster → Cluster
take_new_epoch c =
    let epoch = increment c.current_epoch in
    put_node c.myself (record (c.heap c.myself) { config_epoch = epoch })
      (record c { current_epoch = epoch })

-- `clusterBumpConfigEpochWithoutConsensus`; `false` is `C_ERR`.
unfoldable pub bump_config_epoch : Cluster → Cluster × Bool
unfolding get_max_epoch take_new_epoch
bump_config_epoch c =
    let mine = (c.heap c.myself).config_epoch in
    if nat_beq mine 0 || not (nat_beq mine (get_max_epoch c))
    then (save_and_sync (take_new_epoch c), true)
    else (c, false)

-- `memcmp(a, b) <= 0` of names of one length.
unfoldable pub name_le : Bytes → Bytes → Bool
name_le [] b = true
name_le (x ∷ a) [] = false
name_le (x ∷ a) (y ∷ b) = ltb x y || nat_beq x y && name_le a b

-- `clusterHandleConfigEpochCollision`
unfoldable pub handle_epoch_collision : ℕ → Cluster → Cluster
unfolding name_le take_new_epoch
handle_epoch_collision sender c =
    let s = c.heap sender in
    let me = c.heap c.myself in
    if not (nat_beq s.config_epoch me.config_epoch)
      || not (node_is_master s)
      || not (node_is_master me)
    then c
    else if name_le s.name me.name
    then c
    else emit saved_config (take_new_epoch c)

-- `CLUSTER_BLACKLIST_TTL`
abbrev pub blacklist_ttl : ℕ
blacklist_ttl = 60

-- `clusterBlacklistCleanup`: entries whose time is before `unixtime` are dropped.
unfoldable pub blacklist_cleanup : ℕ → Cluster → Cluster
blacklist_cleanup unixtime c = record c {
  black_list = filter (λ e. not (ltb e.1 unixtime)) c.black_list;
}

-- `clusterBlacklistAddNode`, where `time(NULL)` is `time`.
unfoldable pub blacklist_add_node : ℕ → ℕ → ℕ → Cluster → Cluster
unfolding blacklist_cleanup
blacklist_add_node unixtime time p c =
    let c' = blacklist_cleanup unixtime c in
    record c' { black_list = insert (c.heap p).name (time + blacklist_ttl) c'.black_list }

unfoldable pub blacklist_exists : ℕ → Bytes → Cluster → Cluster × Bool
unfolding blacklist_cleanup
blacklist_exists unixtime name c =
    let c' = blacklist_cleanup unixtime c in
    (c', elim (lookup name c'.black_list) [ none ↦ false | some expire ↦ true ])
