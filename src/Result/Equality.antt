-- ===== src/Result/Equality.antt =====
-- The derived `PartialEq` of `QueryResult` in src/result.rs, and `Vec::dedup` over it. Hash maps are
-- equal when they have as many entries and every entry of the one is found in the other.
use weggli_enhance.Common.{
  Bool, true, false, ◌&&◌, List, [], ◌∷◌, none, some, nat_beq, length, all, lookup, bytes_eq,
}
use weggli_enhance.Text.{Range}
use weggli_enhance.Result.{CaptureResult, QueryResult, Vars}

abbrev pub range_beq : Range → Range → Bool
range_beq a b = nat_beq a.start b.start && nat_beq a.end b.end

abbrev pub capture_beq : CaptureResult → CaptureResult → Bool
capture_beq a b =
    range_beq a.range b.range
    && nat_beq a.query_id b.query_id
    && nat_beq a.capture_idx b.capture_idx

abbrev pub captures_beq : List CaptureResult → List CaptureResult → Bool
captures_beq [] [] = true
captures_beq [] (d ∷ ds) = false
captures_beq (c ∷ cs) [] = false
captures_beq (c ∷ cs) (d ∷ ds) = capture_beq c d && captures_beq cs ds

unfoldable pub vars_beq : Vars → Vars → Bool
vars_beq a b =
    nat_beq (length a) (length b)
    && all a λ e. elim (lookup e.0 b) [ none ↦ false | some i ↦ nat_beq e.1 i ]

unfoldable pub result_beq : QueryResult → QueryResult → Bool
unfolding vars_beq
result_beq a b =
    captures_beq a.captures b.captures && vars_beq a.vars b.vars && range_beq a.function b.function

-- The rest of `dedup` behind the result that was kept last.
unfoldable pub dedup_behind : QueryResult → List QueryResult → List QueryResult
dedup_behind last [] = []
dedup_behind last (r ∷ rs) = elim (result_beq r last) [
  | true ↦ dedup_behind last rs
  | false ↦ r ∷ dedup_behind r rs
]

-- `Vec::dedup`
unfoldable pub dedup : List QueryResult → List QueryResult
unfolding dedup_behind
dedup [] = []
dedup (r ∷ rs) = r ∷ dedup_behind r rs
