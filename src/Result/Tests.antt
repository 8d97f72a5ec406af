-- ===== src/Result/Tests.antt =====
-- Runs of src/result.rs on two matches in one source, and of the theorems on them.
use mathlib.Core.Option.{some}
use weggli_enhance.Common.{◌≡◌, ◌≢◌, refl, arith, true, List, [], ◌∷◌, done, panic, ◌↔◌, false}
use weggli_enhance.Text.{Bytes, codes, range, is_sliceable, slice}
use weggli_enhance.Result.{QueryResult, captured, value, merge, merge_results, chainable}
use weggli_enhance.Result.Bindings.{IsWellFormed, assignment}
use weggli_enhance.Result.Adopt.{Compatible}
use weggli_enhance.Result.Merge.{Follows, IsUnion, merge-IsUnion, merge-some_iff, merge_comm}
use weggli_enhance.Result.Chain.{chainable_iff, chainable_symm}
use weggli_enhance.Result.Products.{IsProduct, merge_results-IsProduct}

abbrev pub source : Bytes
source = codes "a=b;a=c;"

abbrev pub first : QueryResult
first = record {
  captures = record { range = range 0 1; query_id = 0; capture_idx = 0 } ∷ [];
  vars = (codes "$x", 0) ∷ [];
  function = range 0 4;
}

abbrev pub second : QueryResult
second = record {
  captures =
      record { range = range 4 5; query_id = 0; capture_idx = 0 }
      ∷ record { range = range 6 7; query_id = 0; capture_idx = 1 }
      ∷ [];
  vars = (codes "$x", 0) ∷ (codes "$y", 1) ∷ [];
  function = range 4 8;
}

abbrev both : QueryResult
both = record {
  captures =
      record { range = range 0 1; query_id = 0; capture_idx = 0 }
      ∷ record { range = range 4 5; query_id = 0; capture_idx = 0 }
      ∷ record { range = range 6 7; query_id = 0; capture_idx = 1 }
      ∷ [];
  vars = (codes "$x", 0) ∷ (codes "$y", 2) ∷ [];
  function = range 0 4;
}

pub first-IsWellFormed : IsWellFormed source first
unfolding is_sliceable
first-IsWellFormed = record {
  in_range = (omega arith, tt);
  distinct = (refl, tt);
  sliceable = (refl, tt);
}

pub second-IsWellFormed : IsWellFormed source second
unfolding is_sliceable
second-IsWellFormed = record {
  in_range = (omega arith, (omega arith, tt));
  distinct = (refl, (refl, tt));
  sliceable = (refl, (refl, tt));
}

merge-first-second : merge first second source true ≡ done (some both)
unfolding merge value captured slice is_sliceable
merge-first-second = refl

merge-IsUnion_example :
    IsUnion source first second both
    × Compatible (assignment first source) (assignment second source)
    × (true ≡ true → Follows first second)
merge-IsUnion_example =
    merge-IsUnion source first second both true first-IsWellFormed second-IsWellFormed
      merge-first-second

merge-some_iff_example :
    (((m : QueryResult) × (merge first second source true ≡ done (some m))) ↔ (
      Compatible (assignment first source) (assignment second source)
      × (true ≡ true → Follows first second)))
    × (merge first second source true ≢ panic)
merge-some_iff_example =
    merge-some_iff source first second true first-IsWellFormed second-IsWellFormed

merge_unordered : merge first second source false ≡ done (some both)
unfolding merge value captured slice is_sliceable
merge_unordered = refl

merge_comm_example :
    (n : QueryResult) × (merge second first source false ≡ done (some n))
    × ((k : Bytes) → assignment n source k ≡ assignment both source k)
merge_comm_example =
    merge_comm source first second first-IsWellFormed second-IsWellFormed {m = both} merge_unordered

merge_results-IsProduct_example :
    (ms : List QueryResult) × (merge_results (first ∷ []) (first ∷ second ∷ []) source true
      ≡ done ms)
    × IsProduct source true (first ∷ []) (first ∷ second ∷ []) ms
merge_results-IsProduct_example =
    merge_results-IsProduct source true (first ∷ []) (first ∷ second ∷ []) (first-IsWellFormed, tt)
      (first-IsWellFormed, (second-IsWellFormed, tt))

chainable_iff_example :
    (chainable first source second source ≢ panic)
    × ((chainable first source second source ≡ done true)
        ↔ Compatible (assignment first source) (assignment second source))
chainable_iff_example =
    chainable_iff source source first second first-IsWellFormed second-IsWellFormed

chainable_symm_example : chainable first source second source ≡ chainable second source first source
chainable_symm_example =
    chainable_symm source source first second first-IsWellFormed second-IsWellFormed
