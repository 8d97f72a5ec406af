-- ===== src/Number/Tests.antt =====
-- The unit tests of src/util.rs, and runs of the theorems.
use mathlib.Core.List.{map}
use weggli_enhance.Common.{
  ◌≡◌, refl, true, false, List, ◌∷◌, [], Option, none, some, inl, inr, arith, leb, if◌then◌else◌,
}
use weggli_enhance.Common.Int.{ℤ, pos, neg_of}
use weggli_enhance.Text.{Bytes, codes}
use weggli_enhance.Number.{max_i128, parse_number_literal}
use weggli_enhance.Number.Notation.{
  Digit, numerals, value, hexadecimal, spelled, Interspersed, nothing, kept, filler,
}
use weggli_enhance.Number.Parse.{parse_number_literal-spelled}

abbrev literals : List (Bytes × Option ℤ)
literals =
    (codes "10", some (pos 10))
    ∷ (codes "0x10", some (pos 16))
    ∷ (codes "-0x10", some (neg_of 16))
    ∷ (codes "0b11", some (pos 3))
    ∷ (codes "0", some (pos 0))
    ∷ (codes "", none)
    ∷ (codes "0xbeef", some (pos 48879))
    ∷ (codes "010", some (pos 8))
    ∷ (codes "abcdef", none)
    ∷ (codes "-0xbeef", some (neg_of 48879))
    ∷ (codes "0x1ull", some (pos 1))
    ∷ (codes "0x100ULL", some (pos 256))
    ∷ (codes "0x100z", some (pos 256))
    ∷ (codes "100'000", some (pos 100000))
    ∷ (codes "0.0", none)
    ∷ (codes "not-a-literal", none)
    ∷ (codes "-", none)
    ∷ []

parse-literals : map (λ e. parse_number_literal e.0) literals ≡ map (λ e. e.1) literals
unfolding parse_number_literal
parse-literals = refl

abbrev hex_digits : List Digit
hex_digits = (1, false) ∷ (15, true) ∷ (15, false) ∷ []

-- `-0x1F'fUL`
hex_digits-Interspersed :
    Interspersed (spelled true (hexadecimal false) hex_digits) (codes "-0x1F'fUL")
unfolding numerals
hex_digits-Interspersed = kept b'-' (
    kept b'0' (
      kept b'x' (
        kept b'1' (
          kept b'F' (
            filler 39 (inl refl) (
              kept b'f' (
                filler b'U' (inr (inr (inl refl)))
                  (filler b'L' (inr (inr (inr (inr (inl refl))))) nothing))))))))

parse_number_literal-spelled_example :
    parse_number_literal (codes "-0x1F'fUL")
    ≡ (if leb (value 16 0 hex_digits) max_i128 then some (neg_of (value 16 0 hex_digits)) else none)
parse_number_literal-spelled_example =
    parse_number_literal-spelled true (hexadecimal false) hex_digits
      (omega arith, (omega arith, (omega arith, tt))) tt hex_digits-Interspersed

hex_digits-value : value 16 0 hex_digits ≡ 511
unfolding value
hex_digits-value = refl
