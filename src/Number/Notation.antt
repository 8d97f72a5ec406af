-- ===== src/Number/Notation.antt =====
-- How C writes an integer literal, apart from the program: a sign, a prefix for the radix, digits, and
-- separators and suffixes between them.
use weggli_enhance.Common.{
  ℕ, ◌+◌, ◌-◌, ◌*◌, ◌≢◌, Bool, true, false, List, [], ◌∷◌, ◌++◌, ltb, if◌then◌else◌, Member,
}
use weggli_enhance.Common.Int.{ℤ, pos, neg_of}
use weggli_enhance.Text.{Bytes, codes}

-- A digit's value, and whether it is written as a capital where it is a letter.
abbrev pub Digit : Type 0
Digit = ℕ × Bool

-- `0` to `9`, then `a` to `f` or `A` to `F`.
abbrev pub numeral : Digit → ℕ
numeral (d, capital) =
    if ltb d 10 then b'0' + d else if capital then b'A' + (d - 10) else b'a' + (d - 10)

unfoldable pub numerals : List Digit → Bytes
numerals [] = []
numerals (d ∷ ds) = numeral d ∷ numerals ds

-- The number that the digits behind `acc` stand for in a radix.
unfoldable pub value : ℕ → ℕ → List Digit → ℕ
value radix acc [] = acc
value radix acc (d ∷ ds) = value radix (acc * radix + d.0) ds

-- How the radix is written; the prefixes with a letter may have a capital.
pub data Notation : Type 0 where
  hexadecimal : (capital : Bool) → Notation
  binary : (capital : Bool) → Notation
  octal decimal : Notation

abbrev pub radix : Notation → ℕ
radix (hexadecimal capital) = 16
radix (binary capital) = 2
radix octal = 8
radix decimal = 10

abbrev pub prefix : Notation → Bytes
prefix (hexadecimal false) = codes "0x"
prefix (hexadecimal true) = codes "0X"
prefix (binary false) = codes "0b"
prefix (binary true) = codes "0B"
prefix octal = codes "0"
prefix decimal = []

-- There is a digit, and a decimal literal of more than one begins with another than `0`.
abbrev pub IsLeading : Notation → List Digit → Type 0
IsLeading n [] = ⊥
IsLeading decimal (d ∷ e ∷ ds) = d.0 ≢ 0
IsLeading n (d ∷ ds) = Unit

-- The literal without separators and suffixes.
abbrev pub spelled : (minus : Bool) → Notation → List Digit → Bytes
spelled true n ds = b'-' ∷ prefix n ++ numerals ds
spelled false n ds = prefix n ++ numerals ds

abbrev pub signed : (minus : Bool) → ℕ → ℤ
signed true v = neg_of v
signed false v = pos v

-- The separator `'` and the letters of the suffixes.
abbrev pub fillers : List ℕ
fillers = codes "'uUlLzZ"

-- The second text is the first with fillers anywhere in between.
pub data Interspersed : Bytes → Bytes → Type 0 where
  nothing : Interspersed [] []
  kept : (c : ℕ) {s t : Bytes} → Interspersed s t → Interspersed (c ∷ s) (c ∷ t)
  filler : (c : ℕ) {s t : Bytes} → Member c fillers → Interspersed s t → Interspersed s (c ∷ t)
