-- ===== src/Text.antt =====
-- Rust's `&str` as the list of its UTF-8 bytes, and `Range<usize>`.
use Prim.Native.Char.{code}
use Prim.Native.String.{String}
use weggli_enhance.Common.{
  ℕ, zero, suc, ◌-◌, ◌≡◌, Bool, true, false, ◌&&◌, ◌||◌, List, [], ◌∷◌, none, some, ltb, leb,
  nat_beq, if◌then◌else◌, length, get_elem?, take, drop, Outcome, done, panic,
}

abbrev pub Bytes : Type 0
Bytes = List ℕ

-- The bytes of an ASCII literal.
abbrev pub codes : String → Bytes
codes String.[] = []
codes (String.◌∷◌ c s) = code c ∷ codes s

pub record Range : Type 0 where
  pub start : ℕ
  pub end : ℕ

abbrev pub range : ℕ → ℕ → Range
range a b = record { start = a; end = b }

-- `str::is_char_boundary`: the byte at the offset does not continue a character.
unfoldable pub is_char_boundary : Bytes → ℕ → Bool
is_char_boundary s zero = true
is_char_boundary s (suc i) = elim (get_elem? s (suc i)) [
  | none ↦ nat_beq (suc i) (length s)
  | some b ↦ ltb b 128 || leb 192 b
]

-- The test under which `&s[r]` does not panic.
unfoldable pub is_sliceable : Bytes → Range → Bool
unfolding is_char_boundary
is_sliceable s r =
    leb r.start r.end
    && leb r.end (length s)
    && is_char_boundary s r.start
    && is_char_boundary s r.end

-- `&s[r]`
unfoldable pub slice : Bytes → Range → Outcome Bytes
slice s r = if is_sliceable s r then done (take (r.end - r.start) (drop r.start s)) else panic

pub slice-done :
    (s : Bytes) (r : Range) → is_sliceable s r ≡ true → (t : Bytes) × (slice s r ≡ done t)
unfolding slice
slice-done s r h = (take (r.end - r.start) (drop r.start s), rw (h, slice))

-- `str::starts_with`
abbrev pub starts_with : Bytes → Bytes → Bool
starts_with s [] = true
starts_with [] (p ∷ ps) = false
starts_with (c ∷ s) (p ∷ ps) = nat_beq c p && starts_with s ps

-- `str::find(p).is_some()`
abbrev pub contains : Bytes → Bytes → Bool
contains [] p = starts_with [] p
contains (c ∷ s) p = starts_with (c ∷ s) p || contains s p
