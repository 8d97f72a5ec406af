-- ===== src/Cluster/Tests.antt =====
-- Runs of `keyHashSlot` of examples/cluster.c with the sum of the bytes as checksum.
use weggli_enhance.Common.{ℕ, ◌+◌, ◌<◌, ◌≡◌, refl, arith, [], ◌∷◌}
use weggli_enhance.Text.{Bytes, codes}
use weggli_enhance.Cluster.{key_hash_slot}
use weggli_enhance.Cluster.Slots.{Lacking, key_hash_slot-same_tag}

abbrev checksum : Bytes → ℕ
checksum [] = 0
checksum (c ∷ s) = c + checksum s

-- The first pair of braces is empty, so the whole key counts.
empty_braces : key_hash_slot checksum (codes "a{}b") ≡ 443
unfolding key_hash_slot
empty_braces = refl

tag : key_hash_slot checksum (codes "x{ab}y") ≡ 195
unfolding key_hash_slot
tag = refl

prefix-Lacking : (c : ℕ) → c < 123 → Lacking b'{' (c ∷ [])
prefix-Lacking c h = ((λ e. omega (arith, e)), tt)

ab-Lacking : Lacking b'}' (codes "ab")
ab-Lacking = ((λ e. omega (arith, e)), ((λ e. omega (arith, e)), tt))

key_hash_slot-same_tag_example :
    (key_hash_slot checksum (codes "x{ab}y") ≡ key_hash_slot checksum (codes "z{ab}"))
    × (key_hash_slot checksum (codes "x{ab}y") < 16384)
key_hash_slot-same_tag_example =
    key_hash_slot-same_tag checksum (codes "x") (codes "z") (codes "ab") (codes "y") []
      (prefix-Lacking b'x' (omega arith)) (prefix-Lacking b'z' (omega arith)) ab-Lacking
      (omega arith)
