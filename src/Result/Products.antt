-- ===== src/Result/Products.antt =====
-- `merge_results` of src/result.rs and `merge_query_results` of src/query.rs: all merges of one list
-- of results with another.
use weggli_enhance.Common.{
  ◌≡◌, refl, ◌∙◌, ap, Bool, List, [], ◌∷◌, ◌++◌, Option, none, some, All, All-append, Any,
  Any-append, Member, done, Option-cases, inl, inr, ◌↔◌,
}
use weggli_enhance.Text.{Bytes}
use weggli_enhance.Result.{QueryResult, merge, merge_each, merge_results}
use weggli_enhance.Result.Bindings.{IsWellFormed}
use weggli_enhance.Result.Merge.{merge-IsUnion, merge_lem}

module _ (source : Bytes) (enforce : Bool) where
  abbrev pub Merges : QueryResult → QueryResult → QueryResult → Type 0
  Merges m r s = merge r s source enforce ≡ done (some m)

  -- What a list of merges has to hold.
  pub record IsProduct (rs subs ms : List QueryResult) : Type 0 where
    pub well_formed : All (IsWellFormed source) ms
    pub members : (m : QueryResult) → Member m ms ↔ Any (λ r. Any (Merges m r) subs) rs

  merge-total :
      (r s : QueryResult)
      → IsWellFormed source r
      → IsWellFormed source s
      → (o : Option QueryResult) × (merge r s source enforce ≡ done o)
  merge-total r s wr ws = (_, merge_lem source r s wr ws enforce)

  pub record IsRow (r : QueryResult) (subs ms : List QueryResult) : Type 0 where
    pub well_formed : All (IsWellFormed source) ms
    pub members : (m : QueryResult) → Member m ms ↔ Any (Merges m r) subs

  IsRow-skip :
      {r s : QueryResult} {subs ms : List QueryResult}
      → merge r s source enforce ≡ done none
      → IsRow r subs ms
      → IsRow r (s ∷ subs) ms
  IsRow-skip refused row = record {
    well_formed = row.well_formed;
    members = λ m. (
      λ h. inr ((row.members m).0 h),
      λ h. elim h [ inl made ↦ cc | inr t ↦ (row.members m).1 t ],
    );
  }

  IsRow-push :
      {r s q : QueryResult} {subs ms : List QueryResult}
      → IsWellFormed source r
      → IsWellFormed source s
      → Merges q r s
      → IsRow r subs ms
      → IsRow r (s ∷ subs) (q ∷ ms)
  IsRow-push {r} {s} {q} wr ws made row = record {
    well_formed = ((merge-IsUnion source r s q enforce wr ws made).0.well_formed, row.well_formed);
    members = λ m. (
      λ h. elim h [ inl e ↦ inl (cc) | inr t ↦ inr ((row.members m).0 t) ],
      λ h. elim h [ inl made' ↦ inl (cc) | inr t ↦ inr ((row.members m).1 t) ],
    );
  }

  merge_each-IsRow :
      (r : QueryResult) (subs : List QueryResult)
      → IsWellFormed source r
      → All (IsWellFormed source) subs
      → (ms : List QueryResult) × (merge_each r subs source enforce ≡ done ms) × IsRow r subs ms
  unfolding merge_each
  merge_each-IsRow r [] wr ws =
      ([], refl, record { well_formed = tt; members = λ m. (λ h. h, λ h. h) })
  merge_each-IsRow r (s ∷ subs) wr ws =
      let (ms, es, row) = merge_each-IsRow r subs wr ws.1 in
      let (o, eo) = merge-total r s wr ws.0 in
      elim (Option-cases o) [
        | inl refused ↦ (ms, rw (eo, refused) (rw es), IsRow-skip (eo ∙ ap done refused) row)
        | inr (q, made) ↦
            (q ∷ ms, rw (eo, made) (rw es), IsRow-push wr ws.0 (eo ∙ ap done made) row)
      ]

-- Merging two lists of results that fit the source never panics. The results fit the source, and
-- they are exactly the merges of a result of the first list with one of the second.
pub merge_results-IsProduct :
    (source : Bytes) (enforce : Bool) (rs subs : List QueryResult)
    → All (IsWellFormed source) rs
    → All (IsWellFormed source) subs
    → (ms : List QueryResult) × (merge_results rs subs source enforce ≡ done ms)
      × IsProduct source enforce rs subs ms
unfolding merge_results
merge_results-IsProduct source enforce [] subs wr ws =
    ([], refl, record { well_formed = tt; members = λ m. (λ h. h, λ h. h) })
merge_results-IsProduct source enforce (r ∷ rs) subs wr ws =
    let (here, eh, row) = merge_each-IsRow source enforce r subs wr.0 ws in
    let (rest, er, product) = merge_results-IsProduct source enforce rs subs wr.1 ws in
    (
      here ++ rest,
      rw eh (rw er),
      record {
        well_formed = All-append _ here rest row.well_formed product.well_formed;
        members = λ m. (
          λ h. elim ((Any-append _ here rest).0 h) [
            | inl l ↦ inl ((row.members m).0 l)
            | inr t ↦ inr ((product.members m).0 t)
          ],
          λ h. (Any-append _ here rest).1 (elim h [
            | inl l ↦ inl ((row.members m).1 l)
            | inr t ↦ inr ((product.members m).1 t)
          ]),
        );
      },
    )
