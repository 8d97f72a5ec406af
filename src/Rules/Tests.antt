-- ===== src/Rules/Tests.antt =====
-- Runs of src/rules.rs on the regular expressions of a rule, and of the theorems on them.
use weggli_enhance.Common.{
  ℕ, ◌≡◌, refl, List, [], ◌∷◌, ◌⊎◌, inl, inr, ◌↔◌, All, false, true, bytes_eq, nat_beq,
  if◌then◌else◌,
}
use weggli_enhance.Text.{Bytes, codes}
use weggli_enhance.Rules.{ok, RegexMap, normalize, ends_with_bang, with_dollar, process_regexes}
use weggli_enhance.Rules.Regexes.{IsValid, process_regexes-ok_iff}

-- A compiler that keeps an expression's text and refuses one that opens with `(`.
abbrev compile : Bytes → ℕ ⊎ Bytes
compile [] = inr []
compile (c ∷ s) = if nat_beq c b'(' then inl 0 else inr (c ∷ s)

abbrev entries : List Bytes
entries = codes "$fn=^mem" ∷ codes "buf!=^usr=" ∷ []

abbrev bound : RegexMap Bytes
bound = (codes "$fn", (false, codes "^mem")) ∷ (codes "$buf", (true, codes "^usr=")) ∷ []

process_regexes-ok_iff_example :
    ((m : RegexMap Bytes) × (process_regexes compile entries ≡ ok m))
    ↔ All (IsValid compile) entries
process_regexes-ok_iff_example = process_regexes-ok_iff compile entries

-- The `!` of README.md's form stays in the name.
leading_bang : normalize (codes "!buf") ≡ (codes "$!buf", false)
unfolding normalize with_dollar ends_with_bang
leading_bang = refl
