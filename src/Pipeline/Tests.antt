-- ===== src/Pipeline/Tests.antt =====
-- Runs of the filters of src/pipeline.rs, and of the theorems on them.
use weggli_enhance.Common.{◌≡◌, refl, Bool, true, List, [], ◌∷◌, All, done, panic, ◌⊎◌, ◌↔◌}
use weggli_enhance.Text.{codes, slice, is_sliceable}
use weggli_enhance.Result.{QueryResult, value, captured}
use weggli_enhance.Result.Tests.{source, first, second, first-IsWellFormed, second-IsWellFormed}
use weggli_enhance.Query.Tests.{
  Pattern, statement, tree_sitter, query, tree_sitter-IsSane, query-IsCompiled,
}
use weggli_enhance.Sarif.{ResultsCtx}
use weggli_enhance.Pipeline.{
  WorkItem, Options, potential_match, all_new, check_unique, select, execute_queries,
}
use weggli_enhance.Pipeline.Limits.{IsInjective, check_unique-IsInjective}
use weggli_enhance.Pipeline.Selection.{IsSelection, select-IsSelection}
use weggli_enhance.Pipeline.Reports.{IsReport, SendsSelections, SomeFails, execute_queries-IsReport}

abbrev both_switches : Options
both_switches = record { unique = true; limit = true }

select-run :
    select both_switches source (first ∷ second ∷ first ∷ []) [] ≡ done (first ∷ second ∷ [])
unfolding select check_unique all_new value captured slice is_sliceable
select-run = refl

check_unique-IsInjective_example :
    (b : Bool) × (check_unique both_switches second source ≡ done b)
    × ((b ≡ true) ↔ (true ≡ true → IsInjective second source))
check_unique-IsInjective_example =
    check_unique-IsInjective both_switches source second second-IsWellFormed

select-IsSelection_example :
    (rs : List QueryResult) × (select both_switches source (first ∷ second ∷ first ∷ []) []
      ≡ done rs)
    × IsSelection both_switches source [] (first ∷ second ∷ first ∷ []) rs
select-IsSelection_example =
    select-IsSelection both_switches source (first ∷ second ∷ first ∷ [])
      (first-IsWellFormed, (second-IsWellFormed, (first-IsWellFormed, tt)))

abbrev work : List (WorkItem Pattern Bool)
work =
    record { qt = query; identifiers = codes "a" ∷ []; reason = codes "r"; issue = codes "i" } ∷ []

work-potential : potential_match work (codes "a=b;") ≡ true
unfolding potential_match
work-potential = refl

execute_queries-IsReport_example :
    ((rs : List ResultsCtx) × (execute_queries tree_sitter both_switches 0 work
          (codes "a=b;")
          statement
          (codes "a.c")
        ≡ done rs)
      × All (IsReport tree_sitter both_switches (codes "a=b;") (codes "a.c") statement 0 work) rs
      × SendsSelections tree_sitter both_switches (codes "a=b;") (codes "a.c") statement 0 work rs)
    ⊎ ((execute_queries tree_sitter both_switches 0 work (codes "a=b;") statement (codes "a.c")
          ≡ panic)
        × SomeFails tree_sitter both_switches (codes "a=b;") (codes "a.c") statement work)
execute_queries-IsReport_example =
    execute_queries-IsReport tree_sitter both_switches work (codes "a=b;") (codes "a.c") statement
      tree_sitter-IsSane (query-IsCompiled, tt)
