-- ===== src/Sarif.antt =====
-- src/output/sarif.rs, and the line number of src/output/terminal.rs: where a result lies in its
-- file, and the removal of duplicates. The builders of the SARIF document are left out.
pub mod Position
pub mod Unique
pub mod Tests
use weggli_enhance.Common.{
  ℕ, zero, suc, ◌+◌, ◌-◌, ◌≡◌, refl, Bool, true, false, ◌&&◌, not, List, [], ◌∷◌, ◌++◌, Option,
  none, some, arith, min, nat_beq, if◌then◌else◌, length, any, Outcome, done, panic, ◌>>=◌, lift,
  bytes_beq,
}
use weggli_enhance.Text.{Bytes, range, slice}
use weggli_enhance.Result.{QueryResult, start_offset, function_range}

-- `text.matches('\n').count()`
unfoldable pub count_newlines : Bytes → ℕ
count_newlines [] = 0
count_newlines (c ∷ s) = if nat_beq c b'\n' then suc (count_newlines s) else count_newlines s

-- `text.rfind('\n')`
unfoldable pub last_newline : Bytes → Option ℕ
last_newline [] = none
last_newline (c ∷ s) = elim (last_newline s) [
  | some i ↦ some (suc i)
  | none ↦ if nat_beq c b'\n' then some 0 else none
]

unfoldable pub byte_to_line : Bytes → ℕ → Outcome ℕ
byte_to_line source byte_offset = do
  before ← slice source (range 0 (min byte_offset (length source)))
  done (count_newlines before)

unfoldable pub byte_to_column : Bytes → ℕ → Outcome ℕ
byte_to_column source byte_offset = do
  let clamped = min byte_offset (length source)
  before ← slice source (range 0 clamped)
  done (elim (last_newline before) [ some i ↦ clamped - i | none ↦ clamped + 1 ])

-- The line that src/output/terminal.rs prints; its slice is not clamped.
unfoldable pub terminal_line : QueryResult → Bytes → Outcome ℕ
terminal_line r source = do
  before ← slice source (range 0 (start_offset r))
  done (count_newlines before + 1)

-- `ResultsCtx` and `OutputResults` of src/types.rs.
pub record ResultsCtx : Type 0 where
  pub query_index : ℕ
  pub path : Bytes
  pub source : Bytes
  pub result : QueryResult
  pub reason : Bytes
  pub issue : Bytes

pub record OutputResults : Type 0 where
  pub query_index : ℕ
  pub path : Bytes
  pub reason : Bytes
  pub issue : Bytes
  pub start_line : ℕ
  pub start_column : ℕ
  pub end_line : ℕ
  pub end_column : ℕ

-- The body of the first loop of `generate_sarif`. The lines fit an `i64`.
unfoldable pub to_output : ResultsCtx → Outcome OutputResults
to_output r = do
  start_line ← byte_to_line r.source (start_offset r.result)
  start_column ← byte_to_column r.source (start_offset r.result)
  end_line ← byte_to_line r.source (function_range r.result).end
  end_column ← byte_to_column r.source (function_range r.result).end
  done (record {
    query_index = r.query_index;
    path = r.path;
    reason = r.reason;
    issue = r.issue;
    start_line = start_line;
    start_column = start_column;
    end_line = end_line;
    end_column = end_column;
  })

-- The key `(path, start_line, issue)` of a result.
abbrev pub Key : Type 0
Key = Bytes × ℕ × Bytes

abbrev pub key_of : OutputResults → Key
key_of r = (r.path, r.start_line, r.issue)

abbrev pub key_beq : Key → Key → Bool
key_beq a b = bytes_beq a.0 b.0 && nat_beq a.1 b.1 && bytes_beq a.2 b.2

-- The second loop: a result is kept if its key is new; `seen` holds the keys so far.
unfoldable pub unique_from : List Key → List OutputResults → List OutputResults
unique_from seen [] = []
unique_from seen (r ∷ rs) = elim (any seen (λ k. key_beq k (key_of r))) [
  | true ↦ unique_from seen rs
  | false ↦ r ∷ unique_from (key_of r ∷ seen) rs
]

unfoldable pub unique_results : List OutputResults → List OutputResults
unfolding unique_from
unique_results rs = unique_from [] rs
