-- ===== src/Number/Digits.antt =====
-- The digits of an integer literal in src/util.rs: what is filtered out, and what `from_str_radix`
-- makes of the rest.
use weggli_enhance.Common.{
  ℕ, ◌+◌, ◌*◌, ◌≤◌, ◌<◌, ◌≡◌, refl, ap, true, false, List, [], ◌∷◌, none, some, arith, leb, leb→le,
  nat_beq, Bool-cases, inl, inr, All, Member, if◌then◌else◌,
}
use weggli_enhance.Text.{Bytes}
use weggli_enhance.Number.{is_suffix_char, strip, to_digit, magnitude, from_str_radix, unsigned}
use weggli_enhance.Number.Notation.{
  Digit, numeral, numerals, value, fillers, Interspersed, nothing, kept, filler,
}

abbrev pub Plain : Bytes → Type 0
Plain = All λ c. is_suffix_char c ≡ false

filler-is_suffix_char : (c : ℕ) → Member c fillers → is_suffix_char c ≡ true
unfolding is_suffix_char
filler-is_suffix_char c h = ground (arith, h)

-- The fillers are stripped, and nothing else.
pub strip-Interspersed : {s t : Bytes} → Interspersed s t → Plain s → strip t ≡ s
unfolding strip
strip-Interspersed nothing plain = refl
strip-Interspersed (kept c h) plain = rw plain.0 (ap (λ r. c ∷ r) (strip-Interspersed h plain.1))
strip-Interspersed (filler c member h) plain =
    rw (filler-is_suffix_char c member) (strip-Interspersed h plain)

abbrev pub Below : ℕ → List Digit → Type 0
Below r = All λ (d : Digit). d.0 < r

numeral-Plain : (d : Digit) → d.0 < 16 → is_suffix_char (numeral d) ≡ false
unfolding is_suffix_char
numeral-Plain (d, true) h = ground (arith, h)
numeral-Plain (d, false) h = ground (arith, h)

pub numerals-Plain : (r : ℕ) (ds : List Digit) → r ≤ 16 → Below r ds → Plain (numerals ds)
unfolding numerals
numerals-Plain r [] le h = tt
numerals-Plain r (d ∷ ds) le h =
    (numeral-Plain d (omega (arith, le, h.0)), numerals-Plain r ds le h.1)

to_digit-numeral : (r : ℕ) (d : Digit) → r ≤ 16 → d.0 < r → to_digit r (numeral d) ≡ some d.0
unfolding to_digit
to_digit-numeral r (d, true) le h = ground (arith, le, h)
to_digit-numeral r (d, false) le h = ground (arith, le, h)

le-value : (r acc : ℕ) (ds : List Digit) → 1 ≤ r → acc ≤ value r acc ds
unfolding value
le-value r acc [] h = omega arith
le-value r acc (d ∷ ds) h =
    let rest = le-value r (acc * r + d.0) ds h in
    let grown : acc ≤ acc * r = grind (arith, h) in omega (arith, rest, grown)

-- The magnitude is the value, where that is within the limit.
pub magnitude-value :
    (r limit acc : ℕ) (ds : List Digit)
    → 1 ≤ r
    → r ≤ 16
    → acc ≤ limit
    → Below r ds
    → magnitude r limit acc (numerals ds)
      ≡ (if leb (value r acc ds) limit then some (value r acc ds) else none)
unfolding magnitude numerals value
magnitude-value r limit acc [] least le small h = ground (arith, small)
magnitude-value r limit acc (d ∷ ds) least le small h =
    rw (to_digit-numeral r d le h.0, magnitude)
      (elim (Bool-cases (leb (acc * r + d.0) limit)) [
        | inl fits ↦
            rw fits (magnitude-value r limit (acc * r + d.0) ds least le (leb→le _ _ fits) h.1)
        | inr big ↦
            rw big (let grown = le-value r (acc * r + d.0) ds least in ground (arith, grown, big))
      ])

pub no_sign :
    (d : Digit) → d.0 < 16 → (nat_beq (numeral d) b'+' ≡ false) × (nat_beq (numeral d) b'-' ≡ false)
no_sign (d, true) h = (ground (arith, h), ground (arith, h))
no_sign (d, false) h = (ground (arith, h), ground (arith, h))

-- Digits have no sign of their own.
pub from_str_radix-numerals :
    (r : ℕ) (d : Digit) (ds : List Digit)
    → d.0 < 16
    → from_str_radix (numerals (d ∷ ds)) r ≡ unsigned r (numerals (d ∷ ds))
unfolding from_str_radix numerals
from_str_radix-numerals r d [] h = let (plus, minus) = no_sign d h in rw (plus, minus) refl
from_str_radix-numerals r d (e ∷ ds) h = let (plus, minus) = no_sign d h in rw (plus, minus) refl
