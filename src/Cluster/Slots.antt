-- ===== src/Cluster/Slots.antt =====
-- examples/cluster.c: `keyHashSlot` on keys with a part in braces.
use weggli_enhance.Common.{
  ℕ, suc, ◌+◌, ◌-◌, ◌%◌, ◌^◌, ◌<◌, ◌≡◌, ◌≢◌, refl, sym, subst, ◌∙◌, ap, false, [], ◌∷◌, ◌++◌, arith,
  nat_beq, length, length-append, take, drop, All,
}
use weggli_enhance.Text.{Bytes}
use weggli_enhance.Cluster.{index_of, key_hash_slot}

-- The byte is not in the text.
abbrev pub Lacking : ℕ → Bytes → Type 0
Lacking b = All λ c. c ≢ b

index_of-append :
    (b : ℕ) (pre rest : Bytes) → Lacking b pre → index_of b (pre ++ b ∷ rest) ≡ length pre
unfolding index_of
index_of-append b [] rest h = ground arith
index_of-append b (c ∷ pre) rest h = ground (arith, h.0, index_of-append b pre rest h.1)

drop-behind : (b : ℕ) (pre rest : Bytes) → drop (length pre + 1) (pre ++ b ∷ rest) ≡ rest
drop-behind b [] rest = refl
drop-behind b (c ∷ pre) rest =
    let e : length (c ∷ pre) + 1 ≡ suc (length pre + 1) = omega arith in
    ap (λ n. drop n (c ∷ pre ++ b ∷ rest)) e ∙ drop-behind b pre rest

take-before : (xs ys : Bytes) → take (length xs) (xs ++ ys) ≡ xs
take-before [] ys = refl
take-before (x ∷ xs) ys = ap (λ t. x ∷ t) (take-before xs ys)

ne-test : (a b : ℕ) → a < b → nat_beq a b ≡ false
ne-test a b h = ground (arith, h)

key_hash_slot-between :
    (crc16 : Bytes → ℕ) (key rest : Bytes) (s n : ℕ)
    → index_of b'{' key ≡ s
    → drop (s + 1) key ≡ rest
    → index_of b'}' rest ≡ n
    → s + 1 + n < length key
    → 0 < n
    → key_hash_slot crc16 key ≡ crc16 (take n rest) % 2 ^ 14
unfolding key_hash_slot
key_hash_slot-between crc16 key rest s n es er en inside some_tag =
    let ne : nat_beq s (length key) ≡ false = ne-test _ _ (omega (arith, inside)) in
    let behind : nat_beq (s + 1 + n) (length key) ≡ false = ne-test _ _ inside in
    let empty : nat_beq (s + 1 + n) (s + 1) ≡ false = ground (arith, some_tag) in
    let size : s + 1 + n - s - 1 ≡ n = omega arith in
    rw (es, key_hash_slot)
      (rw (ne, er, en) (rw (behind, empty) (ap (λ m. crc16 (take m rest) % 2 ^ 14) size)))

-- A key with a part in braces that is not empty has the slot of that part alone.
key_hash_slot-tag :
    (crc16 : Bytes → ℕ) (pre tag post : Bytes)
    → Lacking b'{' pre
    → Lacking b'}' tag
    → 0 < length tag
    → key_hash_slot crc16 (pre ++ b'{' ∷ (tag ++ b'}' ∷ post)) ≡ crc16 tag % 2 ^ 14
key_hash_slot-tag crc16 pre tag post hp ht some_tag =
    key_hash_slot-between crc16 _ (tag ++ b'}' ∷ post) (length pre) (length tag)
      (index_of-append b'{' pre _ hp) (drop-behind b'{' pre _) (index_of-append b'}' tag post ht)
      (omega (
        arith,
        length-append {0} pre (b'{' ∷ (tag ++ b'}' ∷ post)),
        length-append {0} tag (b'}' ∷ post),
      ))
      some_tag
    ∙ ap (λ t. crc16 t % 2 ^ 14) (take-before tag (b'}' ∷ post))

-- Two keys with the same part in braces, where it is not empty, are in the same slot, whatever stands
-- around it and whatever the checksum is; and the slot is one of 16384.
pub key_hash_slot-same_tag :
    (crc16 : Bytes → ℕ) (pre pre' tag post post' : Bytes)
    → Lacking b'{' pre
    → Lacking b'{' pre'
    → Lacking b'}' tag
    → 0 < length tag
    → (key_hash_slot crc16 (pre ++ b'{' ∷ (tag ++ b'}' ∷ post))
        ≡ key_hash_slot crc16 (pre' ++ b'{' ∷ (tag ++ b'}' ∷ post')))
      × (key_hash_slot crc16 (pre ++ b'{' ∷ (tag ++ b'}' ∷ post)) < 16384)
key_hash_slot-same_tag crc16 pre pre' tag post post' hp hp' ht some_tag =
    let here = key_hash_slot-tag crc16 pre tag post hp ht some_tag in
    (
      here ∙ sym (key_hash_slot-tag crc16 pre' tag post' hp' ht some_tag),
      subst (λ n. n < 16384) (sym here) (omega arith),
    )
