-- ===== src/Sarif/Tests.antt =====
-- Runs of src/output/sarif.rs on a source of three lines, and of the theorems on them.
use weggli_enhance.Common.{
  ℕ, ◌+◌, ◌≤◌, ◌≡◌, refl, arith, List, [], ◌∷◌, true, done, lift, All, Any, Member, length, min,
}
use weggli_enhance.Text.{Bytes, codes, range, is_sliceable, slice}
use weggli_enhance.Result.{QueryResult, start_offset}
use weggli_enhance.Sarif.{
  OutputResults, key_of, count_newlines, last_newline, byte_to_line, byte_to_column, terminal_line,
  unique_results,
}
use weggli_enhance.Sarif.Position.{
  line_start, byte_to_column-line_start, terminal_line-byte_to_line,
}
use weggli_enhance.Sarif.Unique.{DistinctKeys, unique_results-DistinctKeys}

abbrev source : Bytes
source = codes "a\nbc\ndef"

line_of_6 : byte_to_line source 6 ≡ done 2
unfolding byte_to_line slice is_sliceable count_newlines
line_of_6 = refl

column_of_6 : byte_to_column source 6 ≡ done 2
unfolding byte_to_column slice is_sliceable last_newline
column_of_6 = refl

prefix_is_sliceable : is_sliceable source (range 0 (min 6 (length source))) ≡ true
unfolding is_sliceable
prefix_is_sliceable = refl

byte_to_column-line_start_example :
    (line : ℕ) × (column : ℕ) × (byte_to_line source 6 ≡ done line)
    × (byte_to_column source 6 ≡ done column)
    × (1 ≤ column)
    × (line_start source line + column ≡ min 6 (length source) + 1)
byte_to_column-line_start_example = byte_to_column-line_start source 6 prefix_is_sliceable

abbrev result : QueryResult
result = record { captures = []; vars = []; function = range 2 7 }

terminal_line-byte_to_line_example :
    terminal_line result source ≡ lift (λ l. l + 1) (byte_to_line source (start_offset result))
terminal_line-byte_to_line_example = terminal_line-byte_to_line source result (omega arith)

abbrev reported : ℕ → OutputResults
reported line = record {
  query_index = 0;
  path = codes "a.c";
  reason = codes "r";
  issue = codes "i";
  start_line = line;
  start_column = 1;
  end_line = line;
  end_column = 2;
}

abbrev reports : List OutputResults
reports = reported 1 ∷ reported 2 ∷ reported 1 ∷ []

unique_reports : unique_results reports ≡ reported 1 ∷ reported 2 ∷ []
unfolding unique_results
unique_reports = refl

unique_results-DistinctKeys_example :
    DistinctKeys (unique_results reports)
    × ((u : OutputResults) → Member u (unique_results reports) → Member u reports)
    × All (λ r. Any (λ u. key_of u ≡ key_of r) (unique_results reports)) reports
unique_results-DistinctKeys_example = unique_results-DistinctKeys reports
