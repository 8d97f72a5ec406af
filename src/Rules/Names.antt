-- ===== src/Rules/Names.antt =====
-- The variables of regular expressions in src/rules.rs: how they may be written, and what
-- `process_regexes` makes of their signs.
use weggli_enhance.Common.{
  ℕ, ◌≡◌, ◌≢◌, refl, ◌∙◌, ap, Bool, true, false, if◌then◌else◌, Bool-cases, append-nil, All-append,
  [], ◌∷◌, ◌++◌, inl, inr, arith, bytes_eq, All,
}
use weggli_enhance.Text.{Bytes}
use weggli_enhance.Rules.{normalize, with_dollar, pop, ends_with_bang}

abbrev pub Lacks : ℕ → Bytes → Type 0
Lacks b = All λ c. c ≢ b

-- The form in which a variable may be written: with or without a `$` in front and, where its
-- constraint is negative, with a `!` behind.
abbrev pub written : Bool → Bytes → Bool → Bytes
written dollar base bang =
    (if dollar then b'$' ∷ base else base) ++ (if bang then b'!' ∷ [] else [])

abbrev pub HasDollar : Bytes → Type 0
HasDollar v = (rest : Bytes) × (v ≡ b'$' ∷ rest)

abbrev pub HasBang : Bytes → Type 0
HasBang v = (front : Bytes) × (v ≡ front ++ b'!' ∷ [])

ends_with_bang-append : (s : Bytes) → ends_with_bang (s ++ b'!' ∷ []) ≡ true
unfolding ends_with_bang
ends_with_bang-append [] = refl
ends_with_bang-append (c ∷ []) = refl
ends_with_bang-append (c ∷ d ∷ s) = ends_with_bang-append (d ∷ s)

pop-append : (s : Bytes) → pop (s ++ b'!' ∷ []) ≡ s
unfolding pop
pop-append [] = refl
pop-append (c ∷ []) = refl
pop-append (c ∷ d ∷ s) = ap (λ t. c ∷ t) (pop-append (d ∷ s))

ends_with_bang-HasBang : (s : Bytes) → ends_with_bang s ≡ true → HasBang s
unfolding ends_with_bang
ends_with_bang-HasBang [] h = cc
ends_with_bang-HasBang (c ∷ []) h = ([], ground (arith, h))
ends_with_bang-HasBang (c ∷ d ∷ s) h =
    let (front, e) = ends_with_bang-HasBang (d ∷ s) h in (c ∷ front, ap (λ t. c ∷ t) e)

with_dollar_self : (base : Bytes) → with_dollar (b'$' ∷ base) ≡ b'$' ∷ base
unfolding with_dollar
with_dollar_self base = refl

with_dollar-added : (c : ℕ) (base : Bytes) → c ≢ b'$' → with_dollar (c ∷ base) ≡ b'$' ∷ c ∷ base
unfolding with_dollar
with_dollar-added c base h = ground (arith, h)

with_dollar-empty : with_dollar [] ≡ b'$' ∷ []
unfolding with_dollar
with_dollar-empty = refl

with_dollar-written :
    (dollar : Bool) (base : Bytes) (bang : Bool)
    → ¬ HasDollar base
    → with_dollar (written dollar base bang) ≡ b'$' ∷ (base ++ (if bang then b'!' ∷ [] else []))
with_dollar-written true base bang h = with_dollar_self _
with_dollar-written false [] true h = with_dollar-added b'!' [] (omega arith)
with_dollar-written false [] false h = with_dollar-empty
with_dollar-written false (c ∷ base) bang h =
    with_dollar-added c _ λ same. h (base, ap (λ d. d ∷ base) same)

no_bang-base : (base : Bytes) → ¬ HasBang base → ends_with_bang (b'$' ∷ base) ≡ false
unfolding ends_with_bang
no_bang-base [] h = refl
no_bang-base (c ∷ s) h = elim (Bool-cases (ends_with_bang (c ∷ s))) [
  | inl bang ↦ absurd (h (ends_with_bang-HasBang (c ∷ s) bang))
  | inr plain ↦ plain
]

normalize-with_dollar :
    (v : Bytes) {w : Bytes} {b : Bool}
    → with_dollar v ≡ w
    → ends_with_bang w ≡ b
    → normalize v ≡ (if b then pop w else w, b)
unfolding normalize
normalize-with_dollar v e f = rw (e, normalize) (rw f refl)

-- The normalized variable has a `$` in front and no `!` behind, which is its sign.
pub normalize-written :
    (dollar : Bool) (base : Bytes) (bang : Bool)
    → ¬ HasDollar base
    → ¬ HasBang base
    → normalize (written dollar base bang) ≡ (b'$' ∷ base, bang)
normalize-written dollar base true no_dollar no_bang =
    normalize-with_dollar _ (with_dollar-written dollar base true no_dollar)
      (ends_with_bang-append (b'$' ∷ base))
    ∙ ap (λ t. (t, true)) (pop-append (b'$' ∷ base))
normalize-written dollar base false no_dollar no_bang =
    normalize-with_dollar _
      (with_dollar-written dollar base false no_dollar ∙ ap (λ t. b'$' ∷ t) (append-nil base))
      (no_bang-base base no_bang)

bang-Lacks :
    (base : Bytes) (bang : Bool)
    → Lacks b'=' base
    → Lacks b'=' (base ++ (if bang then b'!' ∷ [] else []))
bang-Lacks base true h = All-append _ base (b'!' ∷ []) h (omega arith, tt)
bang-Lacks base false h = rw (append-nil base) h

pub written-Lacks :
    (dollar : Bool) (base : Bytes) (bang : Bool)
    → Lacks b'=' base
    → Lacks b'=' (written dollar base bang)
written-Lacks true base bang h = (omega arith, bang-Lacks base bang h)
written-Lacks false base bang h = bang-Lacks base bang h

-- A `!` in front of the name, as README.md describes a negative constraint, makes no constraint
-- negative: the variable that it binds is another one, whose name has the `!` inside.
pub normalize-leading_bang :
    (c : ℕ) (name : Bytes)
    → ends_with_bang (c ∷ name) ≡ false
    → normalize (b'!' ∷ c ∷ name) ≡ (b'$' ∷ b'!' ∷ c ∷ name, false)
unfolding normalize
normalize-leading_bang c name h = ground (arith, h)
