-- ===== src/Number/Parse.antt =====
-- `parse_number_literal` of src/util.rs on the integer literals of C.
use weggli_enhance.Common.{
  ℕ, ◌≤◌, ◌<◌, ◌≡◌, ◌≢◌, refl, ◌∙◌, ap, Bool, true, false, List, [], ◌∷◌, ◌++◌, none, some, arith,
  leb, All, All-append, if◌then◌else◌, drop,
}
use mathlib.Core.Option
use weggli_enhance.Common.Int.{ℤ, pos, neg_of}
use weggli_enhance.Text.{Bytes, starts_with, codes, range, is_sliceable, is_char_boundary}
use weggli_enhance.Number.{
  max_i128, is_suffix_char, from_str_radix, negate, radix_of, unsigned, unsigned_literal, literal,
  parse_number_literal,
}
use weggli_enhance.Number.Notation.{
  Digit, numeral, numerals, value, Notation, hexadecimal, binary, octal, decimal, radix, prefix,
  IsLeading, spelled, signed, Interspersed,
}
use weggli_enhance.Number.Digits.{
  Plain, Below, strip-Interspersed, numerals-Plain, magnitude-value, no_sign,
  from_str_radix-numerals,
}

-- What `&input[0..2]` needs: the third byte does not continue a character.
abbrev StartsAscii : Bytes → Type 0
StartsAscii [] = Unit
StartsAscii (c ∷ s) = c < 128

numerals-StartsAscii : (r : ℕ) (ds : List Digit) → r ≤ 16 → Below r ds → StartsAscii (numerals ds)
unfolding numerals
numerals-StartsAscii r [] le h = tt
numerals-StartsAscii r ((d, true) ∷ ds) le h = ground (arith, le, h.0)
numerals-StartsAscii r ((d, false) ∷ ds) le h = ground (arith, le, h.0)

two-is_sliceable :
    (a b : ℕ) (s : Bytes) → StartsAscii s → is_sliceable (a ∷ b ∷ s) (range 0 2) ≡ true
unfolding is_sliceable is_char_boundary
two-is_sliceable a b [] h = refl
two-is_sliceable a b (c ∷ s) h = ground (arith, h)

radix_of-hexadecimal :
    (capital : Bool) (s : Bytes)
    → StartsAscii s
    → radix_of (prefix (hexadecimal capital) ++ s) ≡ (2, 16)
unfolding radix_of
radix_of-hexadecimal true s h = rw (two-is_sliceable b'0' b'X' s h) refl
radix_of-hexadecimal false s h = rw (two-is_sliceable b'0' b'x' s h) refl

radix_of-binary :
    (capital : Bool) (s : Bytes) → StartsAscii s → radix_of (prefix (binary capital) ++ s) ≡ (2, 2)
unfolding radix_of
radix_of-binary true s h = rw (two-is_sliceable b'0' b'B' s h) refl
radix_of-binary false s h = rw (two-is_sliceable b'0' b'b' s h) refl

radix_of-octal : (c : ℕ) (s : Bytes) → c < b'8' → StartsAscii s → radix_of (b'0' ∷ c ∷ s) ≡ (1, 8)
unfolding radix_of
radix_of-octal c s h ascii = rw (two-is_sliceable b'0' c s ascii) (ground (arith, h))

radix_of-decimal : (c e : ℕ) (s : Bytes) → c ≢ b'0' → StartsAscii s → radix_of (c ∷ e ∷ s) ≡ (0, 10)
unfolding radix_of
radix_of-decimal c e s h ascii = rw (two-is_sliceable c e s ascii) (ground (arith, h))

radix_of-numerals :
    (d : Digit) (ds : List Digit)
    → Below 10 (d ∷ ds)
    → IsLeading decimal (d ∷ ds)
    → radix_of (numerals (d ∷ ds)) ≡ (0, 10)
unfolding radix_of numerals
radix_of-numerals d [] h leading = refl
radix_of-numerals (d, capital) (e ∷ ds) h leading =
    radix_of-decimal (numeral (d, capital)) (numeral e) (numerals ds) (ground (arith, h.0, leading))
      (numerals-StartsAscii 10 ds (omega arith) h.1.1)

unsigned_literal-radix_of :
    (s : Bytes) {k r : ℕ} → radix_of s ≡ (k, r) → unsigned_literal s ≡ from_str_radix (drop k s) r
unfolding unsigned_literal
unsigned_literal-radix_of s e = rw e refl

radix-bounds : (n : Notation) → (1 ≤ radix n) × (radix n ≤ 16)
radix-bounds (hexadecimal capital) = (omega arith, omega arith)
radix-bounds (binary capital) = (omega arith, omega arith)
radix-bounds octal = (omega arith, omega arith)
radix-bounds decimal = (omega arith, omega arith)

-- The prefix selects the radix, and is dropped.
unsigned_literal-prefix :
    (n : Notation) (d : Digit) (ds : List Digit)
    → Below (radix n) (d ∷ ds)
    → IsLeading n (d ∷ ds)
    → unsigned_literal (prefix n ++ numerals (d ∷ ds))
      ≡ from_str_radix (numerals (d ∷ ds)) (radix n)
unfolding numerals
unsigned_literal-prefix (hexadecimal true) d ds h leading =
    unsigned_literal-radix_of _
      (radix_of-hexadecimal true _ (numerals-StartsAscii 16 (d ∷ ds) (omega arith) h))
unsigned_literal-prefix (hexadecimal false) d ds h leading =
    unsigned_literal-radix_of _
      (radix_of-hexadecimal false _ (numerals-StartsAscii 16 (d ∷ ds) (omega arith) h))
unsigned_literal-prefix (binary true) d ds h leading =
    unsigned_literal-radix_of _
      (radix_of-binary true _ (numerals-StartsAscii 2 (d ∷ ds) (omega arith) h))
unsigned_literal-prefix (binary false) d ds h leading =
    unsigned_literal-radix_of _
      (radix_of-binary false _ (numerals-StartsAscii 2 (d ∷ ds) (omega arith) h))
unsigned_literal-prefix octal (d, capital) ds h leading = unsigned_literal-radix_of _ (
    radix_of-octal (numeral (d, capital)) (numerals ds) (ground (arith, h.0))
      (numerals-StartsAscii 8 ds (omega arith) h.1))
unsigned_literal-prefix decimal d ds h leading =
    unsigned_literal-radix_of _ (radix_of-numerals d ds h leading)

prefix-Plain : (n : Notation) → Plain (prefix n)
unfolding is_suffix_char
prefix-Plain (hexadecimal true) = (refl, (refl, tt))
prefix-Plain (hexadecimal false) = (refl, (refl, tt))
prefix-Plain (binary true) = (refl, (refl, tt))
prefix-Plain (binary false) = (refl, (refl, tt))
prefix-Plain octal = (refl, tt)
prefix-Plain decimal = tt

spelled-Plain :
    (minus : Bool) (n : Notation) (ds : List Digit)
    → Below (radix n) ds
    → Plain (spelled minus n ds)
unfolding is_suffix_char
spelled-Plain true n ds h = (
  refl,
  All-append _ (prefix n) (numerals ds) (prefix-Plain n)
      (numerals-Plain (radix n) ds (radix-bounds n).1 h),
)
spelled-Plain false n ds h =
    All-append _ (prefix n) (numerals ds) (prefix-Plain n)
      (numerals-Plain (radix n) ds (radix-bounds n).1 h)

unsigned_literal-value :
    (n : Notation) (ds : List Digit)
    → Below (radix n) ds
    → IsLeading n ds
    → unsigned_literal (prefix n ++ numerals ds)
      ≡ (if leb (value (radix n) 0 ds) max_i128 then some (pos (value (radix n) 0 ds)) else none)
unfolding unsigned
unsigned_literal-value n [] h leading = absurd leading
unsigned_literal-value n (d ∷ ds) h leading =
    let (least, most) = radix-bounds n in
    unsigned_literal-prefix n d ds h leading
    ∙ from_str_radix-numerals (radix n) d ds (omega (arith, h.0, most))
    ∙ ap (Option.map pos) (magnitude-value (radix n) max_i128 0 (d ∷ ds) least most (omega arith) h)
    ∙ map-if pos (leb (value (radix n) 0 (d ∷ ds)) max_i128) _
  where
    map-if :
        (f : ℕ → ℤ) (b : Bool) (v : ℕ)
        → Option.map f (if b then some v else none) ≡ (if b then some (f v) else none)
    map-if f true v = refl
    map-if f false v = refl

starts_with-minus :
    (n : Notation) (ds : List Digit)
    → Below (radix n) ds
    → starts_with (prefix n ++ numerals ds) (codes "-") ≡ false
unfolding numerals
starts_with-minus (hexadecimal true) ds h = refl
starts_with-minus (hexadecimal false) ds h = refl
starts_with-minus (binary true) ds h = refl
starts_with-minus (binary false) ds h = refl
starts_with-minus octal ds h = refl
starts_with-minus decimal [] h = refl
starts_with-minus decimal (d ∷ ds) h = rw (no_sign d (omega (arith, h.0))).1 refl

literal-spelled :
    (minus : Bool) (n : Notation) (ds : List Digit)
    → Below (radix n) ds
    → IsLeading n ds
    → literal (spelled minus n ds) ≡ (
        if leb (value (radix n) 0 ds) max_i128
        then some (signed minus (value (radix n) 0 ds))
        else none)
unfolding literal negate
literal-spelled true n ds h leading =
    ap (Option.map negate) (unsigned_literal-value n ds h leading)
    ∙ negated (leb (value (radix n) 0 ds) max_i128) (value (radix n) 0 ds)
  where
    negated :
        (b : Bool) (v : ℕ)
        → Option.map negate (if b then some (pos v) else none)
          ≡ (if b then some (neg_of v) else none)
    negated true v = refl
    negated false v = refl
literal-spelled false n ds h leading =
    rw (starts_with-minus n ds h) (unsigned_literal-value n ds h leading)

-- Every integer literal of C has its value: for a literal of a sign, the prefix of a radix and digits
-- of that radix, a decimal one without a `0` in front, and with separators and suffix letters anywhere
-- in between, the result is the signed number that the digits stand for, or nothing where its
-- magnitude passes the greatest value of an `i128`.
pub parse_number_literal-spelled :
    (minus : Bool) (n : Notation) (ds : List Digit) {input : Bytes}
    → All (λ (d : Digit). d.0 < radix n) ds
    → IsLeading n ds
    → Interspersed (spelled minus n ds) input
    → parse_number_literal input ≡ (
        if leb (value (radix n) 0 ds) max_i128
        then some (signed minus (value (radix n) 0 ds))
        else none)
unfolding parse_number_literal
parse_number_literal-spelled minus n ds h leading between =
    ap literal (strip-Interspersed between (spelled-Plain minus n ds h))
    ∙ literal-spelled minus n ds h leading
