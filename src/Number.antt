-- ===== src/Number.antt =====
-- src/util.rs: the value of a C integer literal. Numbers are mathematical integers kept inside the
-- range of an `i128`; `from_str_radix` is the standard library's parser with its overflow test.
pub mod Notation
pub mod Digits
pub mod Parse
pub mod Tests
use weggli_enhance.Common.{
  ℕ, zero, suc, ◌+◌, ◌-◌, ◌*◌, ◌^◌, ◌≡◌, refl, Bool, true, false, not, ◌&&◌, ◌||◌, List, [], ◌∷◌,
  Option, none, some, arith, ltb, leb, nat_beq, if◌then◌else◌, filter, take, drop, any,
}
use mathlib.Core.Option
use weggli_enhance.Common.Int.{ℤ, pos, negsuc, neg_of}
use weggli_enhance.Text.{Bytes, codes, range, is_sliceable, starts_with}

-- `i128::MAX`
abbrev pub max_i128 : ℕ
max_i128 = 2 ^ 127 - 1

-- The separators and suffixes of a literal.
unfoldable pub is_suffix_char : ℕ → Bool
is_suffix_char c = any (codes "'uUlLzZ") λ d. nat_beq c d

-- `input.chars().filter(..).collect()`: all of the characters are ASCII, so it filters bytes.
unfoldable pub strip : Bytes → Bytes
strip s = filter (λ c. not (is_suffix_char c)) s

-- `char::to_digit`, for a radix up to 16.
unfoldable pub to_digit : ℕ → ℕ → Option ℕ
to_digit radix c =
    let d =
      if leb b'0' c && leb c b'9'
      then c - b'0'
      else if leb b'a' c && leb c b'z'
      then c - b'a' + 10
      else if leb b'A' c && leb c b'Z'
      then c - b'A' + 10
      else 36 in
    if ltb d radix then some d else none

-- The digits behind `acc`; `none` where one is no digit or the magnitude passes `limit`.
unfoldable pub magnitude : ℕ → ℕ → ℕ → Bytes → Option ℕ
magnitude radix limit acc [] = some acc
magnitude radix limit acc (c ∷ s) = elim (to_digit radix c) [
  | none ↦ none
  | some d ↦ elim (leb (acc * radix + d) limit) [
    | true ↦ magnitude radix limit (acc * radix + d) s
    | false ↦ none
  ]
]

pub unsigned : ℕ → Bytes → Option ℤ
unsigned radix s = Option.map pos (magnitude radix max_i128 0 s)

-- `i128::from_str_radix`
unfoldable pub from_str_radix : Bytes → ℕ → Option ℤ
unfolding unsigned magnitude to_digit
from_str_radix [] radix = none
from_str_radix (c ∷ []) radix =
    if nat_beq c b'+' || nat_beq c b'-' then none else unsigned radix (c ∷ [])
from_str_radix (c ∷ d ∷ s) radix =
    if nat_beq c b'+'
    then unsigned radix (d ∷ s)
    else if nat_beq c b'-'
    then Option.map neg_of (magnitude radix (max_i128 + 1) 0 (d ∷ s))
    else unsigned radix (c ∷ d ∷ s)

-- `-v` in a release build, where the negation of `i128::MIN` wraps around to itself.
unfoldable pub negate : ℤ → ℤ
negate (pos n) = neg_of n
negate (negsuc n) = if nat_beq n max_i128 then negsuc n else pos (suc n)

-- The prefix's length and the radix that it stands for.
unfoldable pub radix_of : Bytes → ℕ × ℕ
unfolding is_sliceable
radix_of s =
    if is_sliceable s (range 0 2)
    then if starts_with s (codes "0x") || starts_with s (codes "0X")
      then (2, 16)
      else if starts_with s (codes "0b") || starts_with s (codes "0B")
      then (2, 2)
      else if starts_with s (codes "0")
      then (1, 8)
      else (0, 10)
    else (0, 10)

unfoldable pub unsigned_literal : Bytes → Option ℤ
unfolding radix_of from_str_radix
unsigned_literal s = let (offset, radix) = radix_of s in from_str_radix (drop offset s) radix

unfoldable pub literal : Bytes → Option ℤ
unfolding unsigned_literal negate
literal s =
    if starts_with s (codes "-")
    then Option.map negate (unsigned_literal (drop 1 s))
    else unsigned_literal s

unfoldable pub parse_number_literal : Bytes → Option ℤ
unfolding strip literal is_suffix_char
parse_number_literal input = literal (strip input)
