-- ===== src/Pipeline/Selection.antt =====
-- The matches of a query that src/pipeline.rs reports under `--unique` and `--limit`.
use weggli_enhance.Common.{
  ℕ, ◌≡◌, ◌≢◌, refl, sym, ◌∙◌, ap, subst, true, false, List, [], ◌∷◌, arith, any, All, All-mono,
  Any, Member, nat_beq, nat_beq_iff, done, Bool-cases, ◌⊎◌, inl, inr, ◌↔◌,
}
use weggli_enhance.Text.{Bytes}
use weggli_enhance.Result.{QueryResult, start_offset}
use weggli_enhance.Result.Bindings.{IsWellFormed}
use weggli_enhance.Pipeline.{Options, check_unique, select}
use weggli_enhance.Pipeline.Limits.{IsInjective, check_unique-IsInjective}

skipped_iff : (n : ℕ) (skip : List ℕ) → (any skip (λ s. nat_beq s n) ≡ true) ↔ Any (λ s. s ≡ n) skip
skipped_iff n [] = (λ h. absurd (ground (arith, h)), λ h. absurd h)
skipped_iff n (s ∷ skip) = ground (arith, nat_beq_iff s n, skipped_iff n skip)

-- No two results start at the same offset.
abbrev pub DistinctStarts : List QueryResult → Type 0
DistinctStarts [] = Unit
DistinctStarts (r ∷ rs) = All (λ s. start_offset s ≢ start_offset r) rs × DistinctStarts rs

module _ (options : Options) (source : Bytes) where
  -- The result passes `--unique`.
  abbrev pub Passes : QueryResult → Type 0
  Passes m = options.unique ≡ true → IsInjective m source

  -- `rs` is what the filters leave of `ms`, where the offsets in `skip` are taken.
  pub record IsSelection (skip : List ℕ) (ms rs : List QueryResult) : Type 0 where
    pub members : (r : QueryResult) → Member r rs → Member r ms
    pub unique : All Passes rs
    pub limit : options.limit ≡ true → DistinctStarts rs
    pub fresh : options.limit ≡ true → All (λ r. Any (λ s. s ≡ start_offset r) skip → ⊥) rs
    pub complete :
        (m : QueryResult)
        → Member m ms
        → Passes m
        → Member m rs
          ⊎ ((options.limit ≡ true)
              × (Any (λ s. s ≡ start_offset m) skip
                  ⊎ Any (λ r. start_offset r ≡ start_offset m) rs))

  IsSelection-drop :
      {skip : List ℕ} {m : QueryResult} {ms rs : List QueryResult}
      → (Passes m → (options.limit ≡ true) × Any (λ s. s ≡ start_offset m) skip)
      → IsSelection skip ms rs
      → IsSelection skip (m ∷ ms) rs
  IsSelection-drop {skip} {m} {ms} {rs} out h = record {
    members = λ r x. inr (h.members r x);
    unique = h.unique;
    limit = h.limit;
    fresh = h.fresh;
    complete = λ n x ok. elim x [
      | inl same ↦
          subst
            (λ z.
              Passes z
              → Member z rs
                ⊎ ((options.limit ≡ true)
                    × (Any (λ s. s ≡ start_offset z) skip
                        ⊎ Any (λ r. start_offset r ≡ start_offset z) rs)))
            same (λ ok'. let (on, taken) = out ok' in inr (on, inl taken)) ok
      | inr later ↦ h.complete n later ok
    ];
  }

  IsSelection-push_unlimited :
      {skip : List ℕ} {m : QueryResult} {ms rs : List QueryResult}
      → options.limit ≡ false
      → Passes m
      → IsSelection skip ms rs
      → IsSelection skip (m ∷ ms) (m ∷ rs)
  IsSelection-push_unlimited {skip} {m} {ms} {rs} off ok h = record {
    members = λ r x. elim x [ inl same ↦ inl same | inr later ↦ inr (h.members r later) ];
    unique = (ok, h.unique);
    limit = λ on. absurd (ground (arith, on, off));
    fresh = λ on. absurd (ground (arith, on, off));
    complete = λ n x ok'. elim x [
      | inl same ↦ inl (inl same)
      | inr later ↦ elim (h.complete n later ok') [
        | inl kept ↦ inl (inr kept)
        | inr (on, _) ↦ absurd (ground (arith, on, off))
      ]
    ];
  }

  IsSelection-push_limited :
      {skip : List ℕ} {m : QueryResult} {ms rs : List QueryResult}
      → options.limit ≡ true
      → Passes m
      → (Any (λ s. s ≡ start_offset m) skip → ⊥)
      → IsSelection (start_offset m ∷ skip) ms rs
      → IsSelection skip (m ∷ ms) (m ∷ rs)
  IsSelection-push_limited {skip} {m} {ms} {rs} on ok new h = record {
    members = λ r x. elim x [ inl same ↦ inl same | inr later ↦ inr (h.members r later) ];
    unique = (ok, h.unique);
    limit = λ o. (All-mono _ _ rs (λ s out same. out (inl (sym same))) (h.fresh on), h.limit on);
    fresh = λ o. (new, All-mono _ _ rs (λ s out taken. out (inr taken)) (h.fresh on));
    complete = λ n x ok'. elim x [
      | inl same ↦ inl (inl same)
      | inr later ↦ elim (h.complete n later ok') [
        | inl kept ↦ inl (inr kept)
        | inr (o, inl (inl same)) ↦ inr (o, inr (inl same))
        | inr (o, inl (inr taken)) ↦ inr (o, inl taken)
        | inr (o, inr kept) ↦ inr (o, inr (inr kept))
      ]
    ];
  }

  select-refused :
      (m : QueryResult) (ms : List QueryResult) (skip : List ℕ)
      → check_unique options m source ≡ done false
      → select options source (m ∷ ms) skip ≡ select options source ms skip
  unfolding select
  select-refused m ms skip e = rw (e, select) refl

  select-unlimited :
      (m : QueryResult) (ms : List QueryResult) (skip : List ℕ) {rs : List QueryResult}
      → check_unique options m source ≡ done true
      → options.limit ≡ false
      → select options source ms skip ≡ done rs
      → select options source (m ∷ ms) skip ≡ done (m ∷ rs)
  unfolding select
  select-unlimited m ms skip e off h = rw (e, select) (rw off (rw h refl))

  select-taken :
      (m : QueryResult) (ms : List QueryResult) (skip : List ℕ) {rs : List QueryResult}
      → check_unique options m source ≡ done true
      → options.limit ≡ true
      → any skip (λ s. nat_beq s (start_offset m)) ≡ true
      → select options source ms skip ≡ done rs
      → select options source (m ∷ ms) skip ≡ done rs
  unfolding select
  select-taken m ms skip e on taken h = rw (e, select) (simp (on, taken, h))

  select-first :
      (m : QueryResult) (ms : List QueryResult) (skip : List ℕ) {rs : List QueryResult}
      → check_unique options m source ≡ done true
      → options.limit ≡ true
      → any skip (λ s. nat_beq s (start_offset m)) ≡ false
      → select options source ms (start_offset m ∷ skip) ≡ done rs
      → select options source (m ∷ ms) skip ≡ done (m ∷ rs)
  unfolding select
  select-first m ms skip e on new h = rw (e, select) (rw on (rw new (rw h refl)))

  select-from :
      (ms : List QueryResult) (skip : List ℕ)
      → All (IsWellFormed source) ms
      → (rs : List QueryResult) × (select options source ms skip ≡ done rs) × IsSelection skip ms rs
  unfolding select
  select-from [] skip wf = (
    [],
    refl,
    record {
      members = λ r x. x;
      unique = tt;
      limit = λ on. tt;
      fresh = λ on. tt;
      complete = λ n x ok. absurd x;
    },
  )
  select-from (m ∷ ms) skip wf =
      let (b, eb, iff) = check_unique-IsInjective options source m wf.0 in
      let (rs, ers, h) = select-from ms skip wf.1 in
      let (ns, ens, k) = select-from ms (start_offset m ∷ skip) wf.1 in
      elim (Bool-cases b) [
        | inr failed ↦ (
          rs,
          select-refused m ms skip (eb ∙ ap done failed) ∙ ers,
          IsSelection-drop (λ ok. absurd (ground (arith, iff.1 ok, failed))) h,
        )
        | inl passed ↦ elim (Bool-cases options.limit) [
          | inr off ↦ (
            m ∷ rs,
            select-unlimited m ms skip (eb ∙ ap done passed) off ers,
            IsSelection-push_unlimited off (iff.0 passed) h,
          )
          | inl on ↦ elim (Bool-cases (any skip (λ s. nat_beq s (start_offset m)))) [
            | inl taken ↦ (
              rs,
              select-taken m ms skip (eb ∙ ap done passed) on taken ers,
              IsSelection-drop (λ ok. (on, (skipped_iff (start_offset m) skip).0 taken)) h,
            )
            | inr new ↦ (
              m ∷ ns,
              select-first m ms skip (eb ∙ ap done passed) on new ens,
              IsSelection-push_limited on (iff.0 passed)
                  (λ taken. ground (arith, (skipped_iff (start_offset m) skip).1 taken, new)) k,
            )
          ]
        ]
      ]

-- What is reported of the matches of a query: every reported result is a match and passes `--unique`
-- where it is set; with `--limit` no two start at the same offset; and every match that passes
-- `--unique` is reported, or with `--limit` another one that starts at its offset is. There is no
-- panic where the matches fit the source.
pub select-IsSelection :
    (options : Options) (source : Bytes) (ms : List QueryResult)
    → All (IsWellFormed source) ms
    → (rs : List QueryResult) × (select options source ms [] ≡ done rs)
      × IsSelection options source [] ms rs
select-IsSelection options source ms wf = select-from options source ms [] wf
