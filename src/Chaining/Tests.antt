-- ===== src/Chaining/Tests.antt =====
-- A run of `filter_chainable_results` of src/main.rs, and of its theorem.
use weggli_enhance.Common.{ℕ, ◌≡◌, refl, List, [], ◌∷◌, done}
use weggli_enhance.Text.{Bytes, codes, slice, is_sliceable}
use weggli_enhance.Result.{chainable, value, captured}
use weggli_enhance.Result.Bindings.{IsWellFormed}
use weggli_enhance.Result.Tests.{source, first, first-IsWellFormed}
use weggli_enhance.Sarif.{ResultsCtx}
use weggli_enhance.Chaining.{filter_chainable_results}
use weggli_enhance.Chaining.Marks.{IsKept}
use weggli_enhance.Chaining.Survivors.{Keeps, filter_chainable_results-Keeps}

abbrev of_query : ℕ → Bytes → ResultsCtx
of_query i text = record {
  query_index = i;
  path = codes "a.c";
  source = text;
  result = first;
  reason = codes "r";
  issue = codes "i";
}

-- The second source gives `$x` another text.
abbrev found : List ResultsCtx
found = of_query 0 source ∷ of_query 0 (codes "b=b;a=c;") ∷ of_query 1 source ∷ []

filter-run : filter_chainable_results found ≡ done (of_query 0 source ∷ of_query 1 source ∷ [])
unfolding filter_chainable_results chainable value captured slice is_sliceable
filter-run = refl

found-IsWellFormed : IsWellFormed (codes "b=b;a=c;") first
unfolding is_sliceable
found-IsWellFormed = record {
  in_range = first-IsWellFormed.in_range;
  distinct = first-IsWellFormed.distinct;
  sliceable = (refl, tt);
}

filter_chainable_results-Keeps_example :
    (ys : List ResultsCtx) × (filter_chainable_results found ≡ done ys)
    × Keeps (IsKept found) found ys
filter_chainable_results-Keeps_example =
    filter_chainable_results-Keeps found
      (first-IsWellFormed, (found-IsWellFormed, (first-IsWellFormed, tt)))
