-- ===== src/Tests/Import.antt =====
-- The theorems on the import of tables at a small grid, with natural numbers for doubles.
use scope_analyser.Prelude.{
  ℕ, ◌+◌, ◌-◌, ◌*◌, ◌≡◌, refl, Bool, true, false, Option, none, some, List, [], ◌∷◌, ◌==◌, ltb, map,
  arith,
}
use scope_analyser.Prelude.Int.{pos, negsuc}
use scope_analyser.Prelude.Text.{QString, codes, join, eq_text}
use scope_analyser.Converter.CsvSource.{split_csv}
use scope_analyser.Converter.CsvSource.Quoting.{written, split_csv-join}
use scope_analyser.Converter.JsonSource.{ScalarOps, NativeSignal, native_rows}
use scope_analyser.Converter.ConverterProfile.Native.{
  profile_from_scope_json, native_columns, native_profile, x_mapping, y_mapping, is_usable,
}
use scope_analyser.Converter.ConverterProfile.Native.Columns.{Matches, profile_from_scope_json-load}
use scope_analyser.Converter.JsonSource.Table.{load}
use scope_analyser.Converter.JsonSource.Shape.{GivesRectangle, load-IsRectangle}
use scope_analyser.Converter.ConverterProfile.Header.{
  header_profile, profile_from_csv_header, header_line, separator, best_separator, count_of,
  split_at_char, header_columns, is_shared, is_shared_x, shared_headers, split_name_unit,
  last_index_of, x_header, y_header, is_freq_header,
}
use scope_analyser.Converter.ConverterProfile.Header.Sources.{
  IsSourced, profile_from_csv_header-IsSourced,
}
use scope_analyser.Prelude.Json.{value}
use scope_analyser.Tests.JsonTree.{
  member_of, elements_of, JsonTree, text, number, element, field, no_elements, no_fields,
  integer_of, number_of, tree_json,
}
use scope_analyser.Converter.TabularSource.{
  ColumnMapping, ConverterProfile, Rows, Role, x_time, signal, keep_mean, last_of_run,
}
use scope_analyser.Converter.TabularSource.Labels.{label_to_col, col_label, label_to_col-col_label}
use scope_analyser.Converter.TabularSource.Cells.{CellOps}
use scope_analyser.Converter.TabularSource.Collapse.{RunOps, times, same_time}
use scope_analyser.Converter.TabularSource.Collapse.Laws.{Run, samples, AreRuns}
use scope_analyser.Converter.TabularSource.Vectors.{Vectors, collapse_duplicates_vectors}
use scope_analyser.Converter.TabularSource.Vectors.Runs.{
  AreCollapsed, collapse_duplicates_vectors_lem,
}
use scope_analyser.Converter.TabularSource.Collapse.Times.{values}
use scope_analyser.Converter.TabularSource.Apply.{Context, post_process}
use scope_analyser.Converter.TabularSource.Apply.TimeAxis.{IsAscending, post_process-Ascends}

-- The line `a,"b""c"`.
split_csv-join_example :
    split_csv
      (join (codes ",") (map written ((codes "a", false) ∷ (98 ∷ 34 ∷ 99 ∷ [], true) ∷ [])))
      44
    ≡ codes "a" ∷ (98 ∷ 34 ∷ 99 ∷ []) ∷ []
split_csv-join_example =
    split_csv-join 44 (codes "a", false) ((98 ∷ 34 ∷ 99 ∷ [], true) ∷ []) (omega arith)
      (((omega arith, omega arith), tt), (tt, tt))

abbrev upper_letter : ℕ → Bool
upper_letter c = ltb 64 c

-- Column 27 is AB.
label_to_col-col_label_example : label_to_col upper_letter (λ c. c) (col_label 27) ≡ pos 27
label_to_col-col_label_example =
    label_to_col-col_label upper_letter (λ c. c) (λ k h. ground arith) (λ k h. refl) 27

abbrev run_ops : RunOps ℕ
run_ops = record {
  zero_real = 0;
  add = λ a b. a + b;
  over_count = λ a n. a;
  same = λ a b. a == b;
  is_zero = λ s. s == 0;
  seconds_to_ns = λ s. pos (s * 1000000000);
}

-- The first two samples have one timestamp, the last two one value.
abbrev three_samples : Vectors ℕ
three_samples = record { ts = pos 7 ∷ pos 7 ∷ pos 9 ∷ []; vs = 1 ∷ 2 ∷ 2 ∷ [] }

collapse_duplicates_vectors_lem_example :
    (runs : List (Run ℕ)) × (times (samples runs) ≡ pos 7 ∷ pos 7 ∷ pos 9 ∷ [])
    × (values (samples runs) ≡ 1 ∷ 2 ∷ 2 ∷ [])
    × AreRuns same_time runs
    × AreCollapsed run_ops keep_mean runs
        (collapse_duplicates_vectors run_ops keep_mean three_samples).ts
        (collapse_duplicates_vectors run_ops keep_mean three_samples).vs
collapse_duplicates_vectors_lem_example =
    collapse_duplicates_vectors_lem run_ops keep_mean three_samples refl (λ e. cc)

-- A digit.
abbrev digit : QString → Option ℕ
digit (c ∷ []) = some (c - 48)
digit _ = none

abbrev cell_ops : CellOps ℕ
cell_ops = record {
  trimmed = λ t. t;
  replace = λ t _ _. t;
  contains_text = λ _ _. false;
  same_text = eq_text;
  to_double = digit;
  to_long_long = λ _. none;
  zero_value = 0;
  of_ℕ = λ n. n;
  multiply = λ a b. a * b;
  divide = λ a b. a;
  is_positive = λ a. ltb 0 a;
  power_of_ten = λ k. 1000;
  truncate = pos;
}

abbrev context : Context ℕ
context = record {
  cells = cell_ops;
  runs = run_ops;
  is_letter = upper_letter;
  to_upper = λ c. c;
  bytes_of = λ v. v ∷ 0 ∷ 0 ∷ 0 ∷ 0 ∷ 0 ∷ 0 ∷ 0 ∷ [];
  bits_of = λ v. v;
  source_label = codes "file";
}

abbrev mapping : QString → Role → QString → ColumnMapping ℕ
mapping id role name = record {
  column_id = id;
  role = role;
  signal_name = name;
  unit = [];
  row_start = negsuc 0;
  row_end = negsuc 0;
  x_source_column = [];
  use_sample_rate = false;
  sample_rate_hz = 0;
  sample_rate_display_unit = codes "ms";
  reset_time_to_zero = true;
  time_offset_sec = 5;
  collapse_duplicates = keep_mean;
  collapse_value_plateaus = last_of_run;
}

-- Samples as they are read become one that ends the plateau.
post_process-Ascends_example :
    IsAscending (post_process context (mapping (codes "B") signal (codes "v")) three_samples).ts
post_process-Ascends_example =
    post_process-Ascends context (mapping (codes "B") signal (codes "v")) three_samples refl
      (λ e. cc) (omega arith, (omega arith, tt))

abbrev grid : Rows
grid =
    (codes "t" ∷ codes "v" ∷ []) ∷ (codes "0" ∷ codes "1" ∷ []) ∷ (codes "1" ∷ codes "2" ∷ []) ∷ []

abbrev two_columns : ConverterProfile ℕ
two_columns = record {
  version = pos 1;
  source_type = codes "csv";
  sheet = [];
  range = [];
  header_row = pos 1;
  decimal_separator = codes ".";
  column_delimiter = codes ",";
  row_delimiter = codes "\n";
  use_sample_rate = false;
  sample_rate_hz = 0;
  sample_rate_display_unit = codes "ms";
  columns = mapping (codes "A") x_time [] ∷ mapping (codes "B") signal (codes "v") ∷ [];
}

abbrev scalar_ops : ScalarOps ℕ JsonTree
scalar_ops = record {
  integer_value = integer_of;
  float_value = number_of;
  number_value = number_of;
  integer_text = λ n. codes "n";
  float_text = λ x. codes "x";
  to_hertz = λ x. x;
  column_text = λ c. 99 ∷ c ∷ [];
}

-- Records of which each has a key that the other lacks.
abbrev two_records : JsonTree
two_records =
    element (field (codes "a") (number 1) no_fields)
      (element (field (codes "b") (text (codes "t")) no_fields) no_elements)

load-IsRectangle_example : GivesRectangle (load (tree_json no_fields) scalar_ops two_records)
load-IsRectangle_example = load-IsRectangle (tree_json no_fields) scalar_ops two_records

-- One signal of one sample.
abbrev one_signal : JsonTree
one_signal =
    field (codes "signals")
      (element
        (field (codes "name") (text (codes "v")) (
          field (codes "t") (element (number 1) no_elements)
            (field (codes "v") (element (number 2) no_elements) no_fields)))
        no_elements)
      no_fields

profile_from_scope_json-load_example :
    (ss : List (NativeSignal JsonTree)) × (load (tree_json no_fields) scalar_ops one_signal
      ≡ some (native_rows (tree_json no_fields) scalar_ops ss))
    × Matches (tree_json no_fields) 0 0 ss (
        x_mapping (tree_json no_fields) 0 0 false
        ∷ y_mapping (tree_json no_fields) 0 0 (codes "v") []
        ∷ [])
unfolding profile_from_scope_json native_columns is_usable member_of eq_text elements_of value
profile_from_scope_json-load_example =
    profile_from_scope_json-load (tree_json no_fields) 0 scalar_ops one_signal
      (native_profile (tree_json no_fields) 0 (
        x_mapping (tree_json no_fields) 0 0 false
        ∷ y_mapping (tree_json no_fields) 0 0 (codes "v") []
        ∷ []))
      refl

-- A header of a time column and a channel without a unit.
profile_from_csv_header-IsSourced_example :
    IsSourced
      (x_header (λ t. t) 0 0 (codes "t") ∷ y_header {Real = ℕ} (λ t. t) 0 1 (codes "v") [] 0 ∷ [])
      none
unfolding profile_from_csv_header header_line separator best_separator count_of split_at_char
    header_columns is_shared is_shared_x shared_headers split_name_unit last_index_of x_header
    y_header is_freq_header eq_text
profile_from_csv_header-IsSourced_example =
    profile_from_csv_header-IsSourced {Real = ℕ} (λ t. t) 0
      (codes "# a" ∷ codes "t,v" ∷ codes "0,1" ∷ [])
      (header_profile (λ t. t) 0 44
        (x_header (λ t. t) 0 0 (codes "t") ∷ y_header (λ t. t) 0 1 (codes "v") [] 0 ∷ []))
      refl
