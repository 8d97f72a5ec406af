-- ===== src/Rules.antt =====
-- src/rules.rs: the regular expressions of a rule, given as `var=regex`. fancy-regex is a parameter:
-- `compile` gives the compiled expression, or the error.
pub mod Names
pub mod Regexes
pub mod Tests
use weggli_enhance.Common.{
  ℕ, ◌≡◌, refl, Bool, true, false, List, [], ◌∷◌, ◌++◌, Option, none, some, ◌⊎◌, inl, inr, nat_beq,
  if◌then◌else◌, lookup, insert, bytes_eq,
}
use weggli_enhance.Text.{Bytes, codes, starts_with}

pub data RegexError (E : Type 0) : Type 0 where
  invalid_arg : Bytes → RegexError E
  invalid_regex : E → RegexError E

pub data Result (E A : Type 0) : Type 0 where
  ok : A → Result E A
  err : RegexError E → Result E A

-- `RegexMap`: is the constraint negative, and its expression.
abbrev pub RegexMap : Type 0 → Type 0
RegexMap R = List (Bytes × (Bool × R))

-- `splitn(2, '=')`: the text before the first `=`, and what stands behind it.
unfoldable pub split_eq : Bytes → Bytes × Option Bytes
split_eq [] = ([], none)
split_eq (c ∷ s) =
    let (var, rest) = split_eq s in if nat_beq c b'=' then ([], some s) else (c ∷ var, rest)

-- `ends_with('!')`
unfoldable pub ends_with_bang : Bytes → Bool
ends_with_bang [] = false
ends_with_bang (c ∷ []) = nat_beq c b'!'
ends_with_bang (c ∷ d ∷ s) = ends_with_bang (d ∷ s)

-- `String::pop`, of a text that ends in an ASCII character.
unfoldable pub pop : Bytes → Bytes
pop [] = []
pop (c ∷ []) = []
pop (c ∷ d ∷ s) = c ∷ pop (d ∷ s)

unfoldable pub with_dollar : Bytes → Bytes
with_dollar var = if starts_with var (codes "$") then var else b'$' ∷ var

-- The normalized variable, and whether its constraint is negative.
unfoldable pub normalize : Bytes → Bytes × Bool
unfolding with_dollar ends_with_bang pop
normalize var =
    let v = with_dollar var in
    let negative = ends_with_bang v in (if negative then pop v else v, negative)

module _ {E R : Type 0} (compile : Bytes → E ⊎ R) where
  -- The body of the loop of `process_regexes`; `result` is the map so far.
  unfoldable pub process_one : Bytes → RegexMap R → Result E (RegexMap R)
  unfolding normalize split_eq
  process_one r result =
      let (var, raw) = split_eq r in
      elim raw [
        | none ↦ err (invalid_arg r)
        | some raw_regex ↦ elim (compile raw_regex) [
          | inl e ↦ err (invalid_regex e)
          | inr regex ↦ let (v, negative) = normalize var in ok (insert v (negative, regex) result)
        ]
      ]

  unfoldable pub process_from : List Bytes → RegexMap R → Result E (RegexMap R)
  unfolding process_one
  process_from [] result = ok result
  process_from (r ∷ rs) result = elim (process_one r result) [
    | ok m ↦ process_from rs m
    | err e ↦ err e
  ]

  unfoldable pub process_regexes : List Bytes → Result E (RegexMap R)
  unfolding process_from
  process_regexes regexes = process_from regexes []
