-- ===== src/Rules/Regexes.antt =====
-- What `process_regexes` of src/rules.rs accepts, and what it binds.
use weggli_enhance.Common.{
  ◌≡◌, refl, ◌∙◌, ap, nat_beq, Bool-cases, some-injective, List, [], ◌∷◌, ◌++◌, some, ◌⊎◌, inl, inr,
  ◌↔◌, arith, Option-cases, insert, bytes_eq, All,
}
use weggli_enhance.Text.{Bytes}
use weggli_enhance.Rules.{
  Result, ok, err, RegexMap, split_eq, normalize, process_one, process_from, process_regexes,
}
use weggli_enhance.Rules.Names.{Lacks}

-- A name without `=` is all of the text before the first `=`.
split_eq-append :
    (name regex : Bytes) → Lacks b'=' name → split_eq (name ++ b'=' ∷ regex) ≡ (name, some regex)
unfolding split_eq
split_eq-append [] regex h = refl
split_eq-append (c ∷ name) regex h = ground (arith, split_eq-append name regex h.1)

-- Where an `=` is found, the text is what stands before it, the `=` and what stands behind it.
split_eq-some :
    (r : Bytes) {raw : Bytes}
    → (split_eq r).1 ≡ some raw
    → Lacks b'=' (split_eq r).0 × (r ≡ (split_eq r).0 ++ b'=' ∷ raw)
unfolding split_eq
split_eq-some [] h = cc
split_eq-some (c ∷ s) {raw} h = elim (Bool-cases (nat_beq c b'=')) [
  | inl here ↦ rw here (tt, ground (arith, here, some-injective s raw (rw here at h)))
  | inr other ↦ rw other (
      let rest = split_eq-some s (rw other at h) in
      ((ground (arith, other), rest.0), ap (λ t. c ∷ t) rest.1))
]

module _ {E R : Type 0} (compile : Bytes → E ⊎ R) where
  -- The entry is a name without `=`, an `=` and an expression that compiles.
  abbrev pub IsValid : Bytes → Type 0
  IsValid r =
      (name : Bytes) × (raw : Bytes) × (regex : R) × Lacks b'=' name
      × (r ≡ name ++ b'=' ∷ raw)
      × (compile raw ≡ inr regex)

  -- The same of what `split_eq` finds.
  abbrev SplitsValid : Bytes → Type 0
  SplitsValid r =
      (raw : Bytes) × (regex : R) × ((split_eq r).1 ≡ some raw) × (compile raw ≡ inr regex)

  IsValid-SplitsValid : (r : Bytes) → IsValid r → SplitsValid r
  IsValid-SplitsValid r (name, raw, regex, lacks, form, c) = (
    raw,
    regex,
    ap (λ t. (split_eq t).1) form ∙ ap (λ q. q.1) (split_eq-append name raw lacks),
    c,
  )

  SplitsValid-IsValid : (r : Bytes) → SplitsValid r → IsValid r
  SplitsValid-IsValid r (raw, regex, e, c) =
      let (lacks, form) = split_eq-some r e in ((split_eq r).0, raw, regex, lacks, form, c)

  -- A valid entry binds its normalized name to its sign and expression.
  process_one-ok :
      (r : Bytes) (result : RegexMap R) {raw : Bytes} {regex : R}
      → (split_eq r).1 ≡ some raw
      → compile raw ≡ inr regex
      → process_one compile r result
        ≡ ok (insert (normalize (split_eq r).0).0 ((normalize (split_eq r).0).1, regex) result)
  unfolding process_one
  process_one-ok r result e c = rw (e, process_one) (rw c)

  process_one-SplitsValid :
      (r : Bytes) (result m : RegexMap R) → process_one compile r result ≡ ok m → SplitsValid r
  unfolding process_one
  process_one-SplitsValid r result m h = elim (Option-cases (split_eq r).1) [
    | inl absent ↦ cc (rw (absent, process_one) at h)
    | inr (raw, e) ↦ compiled raw e (compile raw) refl
  ]
    where
      compiled :
          (raw : Bytes) → (split_eq r).1 ≡ some raw → (o : E ⊎ R) → compile raw ≡ o → SplitsValid r
      compiled raw e (inr regex) c = (raw, regex, e, c)
      compiled raw e (inl error) c = cc (rw (e, c, process_one) at h)

  process_from-IsValid :
      (rs : List Bytes) (result m : RegexMap R)
      → process_from compile rs result ≡ ok m
      → All IsValid rs
  unfolding process_from
  process_from-IsValid [] result m h = tt
  process_from-IsValid (r ∷ rs) result m h =
      go (process_one compile r result) refl (λ n e. process_from-IsValid rs n m e)
    where
      go :
          (o : Result E (RegexMap R))
          → process_one compile r result ≡ o
          → ((n : RegexMap R) → process_from compile rs n ≡ ok m → All IsValid rs)
          → IsValid r × All IsValid rs
      go (ok n) e rest = (
        SplitsValid-IsValid r (process_one-SplitsValid r result n e),
        rest n (rw (e, process_from) at h),
      )
      go (err error) e rest = cc (rw (e, process_from) at h)

  process_from-ok :
      (rs : List Bytes) (result : RegexMap R)
      → All IsValid rs
      → (m : RegexMap R) × (process_from compile rs result ≡ ok m)
  unfolding process_from
  process_from-ok [] result h = (result, refl)
  process_from-ok (r ∷ rs) result (valid, h) =
      let (raw, regex, e, c) = IsValid-SplitsValid r valid in
      let (v, negative) = normalize (split_eq r).0 in
      let (m, em) = process_from-ok rs (insert v (negative, regex) result) h in
      (m, rw (process_one-ok r result e c, process_from) em)

-- The regular expressions of a rule are accepted exactly when every entry has the form `var=regex`,
-- where the name `var` holds no `=`, and its expression, all of the text behind that `=`, compiles.
pub process_regexes-ok_iff :
    {E R : Type 0} (compile : Bytes → E ⊎ R) (rs : List Bytes)
    → ((m : RegexMap R) × (process_regexes compile rs ≡ ok m)) ↔ All (IsValid compile) rs
unfolding process_regexes
process_regexes-ok_iff compile rs =
    (λ (m, h). process_from-IsValid compile rs [] m h, λ h. process_from-ok compile rs [] h)
