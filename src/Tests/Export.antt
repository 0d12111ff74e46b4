-- ===== src/Tests/Export.antt =====
-- The theorems on the export to CSV and on profiles at two small channels, with natural numbers for
-- doubles.
use scope_analyser.Prelude.{
  ℕ, ◌+◌, ◌-◌, ◌*◌, ◌≡◌, ◌↔◌, refl, Bool, not, ◌&&◌, All, true, false, Option, none, some, List, [],
  ◌∷◌, ◌++◌, ◌==◌, arith, length, get_or,
}
use scope_analyser.Prelude.Int.{ℤ, pos, pos_part, negsuc}
use scope_analyser.Prelude.Text.{QString, codes, join, eq_text}
use scope_analyser.Core.Types.{float64, ads_notify, Domain}
use scope_analyser.Core.Signal.{Signal}
use scope_analyser.Converter.CsvWriter.{
  Cache, CsvExportOptions, NumberOps, shared, epoch_ns, linear_interp, fmt_double, column_header,
  per_sig_x_header, shared_x_label, time_unit, is_epoch, is_freq, freq_caches, time_caches,
}
use scope_analyser.Converter.CsvSource.{split_csv}
use scope_analyser.Converter.CsvSource.Quoting.{Plain}
use scope_analyser.Converter.CsvWriter.Lines.Cells.{HasTexts}
use scope_analyser.Converter.CsvWriter.Lines.Splitting.{table_lines-split_csv}
use scope_analyser.Converter.CsvWriter.Grid.{
  build_grid, insert_channels, insert_times, insert_time, Ascends, Occurs, IsTimeOf, build_grid_lem,
}
use scope_analyser.Converter.CsvWriter.Columns.{columns, metadata_json, add_block}
use scope_analyser.Converter.CsvWriter.Lines.{
  sep_of, dec_of, table_lines, shared_row, shared_row_count, fmt_time_x, fmt_freq_x,
}
use scope_analyser.Converter.CsvWriter.Lines.Alignment.{row_cells, shared_row-join}
use scope_analyser.Converter.CsvWriter.Interpolation.{linear_interp-get_elem?}
use scope_analyser.Converter.CsvWriter.Repeats.{
  total, own_rows, scan_repeated_timestamps, scan_repeated_timestamps_lem,
}
use scope_analyser.Converter.TabularSource.{ConverterProfile, signal, keep_mean, last_of_run}
use scope_analyser.Converter.ConverterProfile.{profile_to_json, column_to_json, save, load}
use scope_analyser.Converter.ConverterProfile.RoundTrip.{load-save}
use scope_analyser.Converter.ConverterProfile.Metadata.{profile_from_metadata}
use scope_analyser.Converter.ConverterProfile.Agreement.Columns.{
  AreColumns, profile_from_metadata-metadata_json,
}
use scope_analyser.Tests.JsonTree.{JsonTree, no_fields, tree_json, tree_laws}

abbrev signal_of : QString → Domain → List ℤ → Signal
signal_of name domain ts = record {
  meta = record {
    name = name;
    unit = codes "mm";
    data_type = float64;
    mode = ads_notify;
    sample_rate_hz = 0;
    parent_task_cycle_us = 0;
    source_symbol = [];
    domain = domain;
    source_start_ns = pos 0;
  };
  timestamps = ts;
  values = [];
  sample_count = length ts;
}

abbrev cache_of : QString → Domain → List ℤ → List ℕ → Cache ℕ
cache_of name domain ts vals = record {
  signal = signal_of name domain ts;
  timestamps = ts;
  vals = vals;
}

abbrev speed : Cache ℕ
speed = cache_of (codes "speed") Domain.time (pos 1 ∷ pos 3 ∷ []) (10 ∷ 30 ∷ [])

abbrev force : Cache ℕ
force = cache_of (codes "force") Domain.time (pos 2 ∷ pos 3 ∷ []) (5 ∷ 6 ∷ [])

abbrev spectrum : Cache ℕ
spectrum = cache_of (codes "fft") Domain.frequency (pos 0 ∷ []) (1 ∷ [])

abbrev options : CsvExportOptions
options = record {
  include_header = true;
  column_delimiter = codes ",";
  row_delimiter = [];
  decimal_separator = [];
  time_mode = shared;
  time_axis = epoch_ns;
  decimal_digits = negsuc 0;
  include_metadata = true;
  layout_json = [];
}

-- A number is printed as that many strokes.
abbrev strokes : ℕ → QString
strokes n = 124 ∷ n ∷ []

abbrev number_ops : NumberOps ℕ
number_ops = record {
  nan = 0;
  is_nan = λ v. v == 0;
  is_zero = λ v. v == 0;
  of_ℤ = pos_part;
  add = λ a b. a + b;
  sub = λ a b. a - b;
  mul = λ a b. a * b;
  div = λ a b. a;
  giga = 1;
  general = strokes;
  fixed = λ v _. strokes v;
  integer = λ t. strokes (pos_part t);
  replace_point = λ t _. t;
}

-- A text has no comma and no quote.
abbrev is_plain : QString → Bool
is_plain [] = true
is_plain (c ∷ r) = not (c == 44) && not (c == 34) && is_plain r

is_plain-Plain : (t : QString) → is_plain t ≡ true → Plain 44 t
is_plain-Plain [] h = tt
is_plain-Plain (c ∷ r) h = ((λ e. ground arith, λ e. ground arith), is_plain-Plain r (ground arith))

-- Every number is printed as the digit 1.
abbrev plain_ops : NumberOps ℕ
plain_ops = record number_ops {
  is_nan = λ v. false;
  general = λ v. 49 ∷ [];
  integer = λ t. 49 ∷ [];
}

ascii_label : (d : Domain) → Plain 44 (shared_x_label d (codes "ns"))
unfolding shared_x_label
ascii_label Domain.time = is_plain-Plain (codes "t [ns]") refl
ascii_label Domain.frequency = is_plain-Plain (codes "f [Hz]") refl

export_texts : HasTexts plain_ops options (Plain 44) (speed ∷ spectrum ∷ force ∷ [])
unfolding fmt_double column_header per_sig_x_header shared_x_label eq_text dec_of time_unit is_epoch
    is_freq
export_texts = record {
  blank = tt;
  number = λ v. is_plain-Plain (49 ∷ []) refl;
  integer = λ t. is_plain-Plain (49 ∷ []) refl;
  label = ascii_label;
  headers = (
    (
      is_plain-Plain (column_header speed.signal) refl,
      is_plain-Plain (per_sig_x_header speed.signal (time_unit options)) refl,
    ),
    (
      (
        is_plain-Plain (column_header spectrum.signal) refl,
        is_plain-Plain (per_sig_x_header spectrum.signal (time_unit options)) refl,
      ),
      (
        (
          is_plain-Plain (column_header force.signal) refl,
          is_plain-Plain (per_sig_x_header force.signal (time_unit options)) refl,
        ),
        tt,
      ),
    ),
  );
}

table_lines-split_csv_example :
    All
      (λ line.
        length (split_csv line 44) ≡ length (columns options (speed ∷ spectrum ∷ force ∷ [])))
      (table_lines plain_ops options (speed ∷ spectrum ∷ force ∷ []))
unfolding sep_of columns add_block freq_caches is_freq time_caches
table_lines-split_csv_example =
    table_lines-split_csv plain_ops options 44 (speed ∷ spectrum ∷ force ∷ []) refl (λ e. cc)
      export_texts refl

build_grid_lem_example :
    Ascends (build_grid (speed ∷ force ∷ []))
    × ((t : ℤ) → Occurs t (build_grid (speed ∷ force ∷ [])) ↔ IsTimeOf t (speed ∷ force ∷ []))
build_grid_lem_example = build_grid_lem (speed ∷ force ∷ [])

-- The second row has no cell of the spectrum's grid.
shared_row-join_example :
    shared_row number_ops options (pos 1) (speed ∷ force ∷ []) (spectrum ∷ []) 1
    ≡ join (sep_of options) (
        row_cells number_ops options (fmt_time_x number_ops options (pos 1)) (speed ∷ force ∷ []) 1
        ++ row_cells number_ops options (fmt_freq_x number_ops options) (spectrum ∷ []) 1)
unfolding shared_row_count build_grid insert_channels insert_times insert_time
shared_row-join_example =
    shared_row-join number_ops options (pos 1) (speed ∷ force ∷ []) (spectrum ∷ []) 1 (omega arith)

linear_interp-get_elem?_example :
    linear_interp number_ops (pos 1 ∷ pos 3 ∷ []) (10 ∷ 30 ∷ []) 2 (pos 3)
    ≡ get_or (10 ∷ 30 ∷ []) 1 0
linear_interp-get_elem?_example =
    linear_interp-get_elem? number_ops (pos 1 ∷ pos 3 ∷ []) (10 ∷ 30 ∷ []) 1 (pos 3)
      (omega arith, tt) refl

-- One channel repeats a timestamp, one is a null pointer.
abbrev scanned : List (Option Signal)
scanned =
    some (signal_of (codes "a") Domain.time (pos 1 ∷ pos 1 ∷ pos 2 ∷ []))
    ∷ none
    ∷ some (signal_of (codes "b") Domain.time (pos 5 ∷ []))
    ∷ []

scan_repeated_timestamps_lem_example :
    total own_rows scanned + (scan_repeated_timestamps scanned).dropped_samples
    ≡ total length scanned
scan_repeated_timestamps_lem_example =
    scan_repeated_timestamps_lem scanned ((omega arith, (omega arith, tt)), (tt, tt))

abbrev profile : ConverterProfile ℕ
profile = record {
  version = pos 1;
  source_type = codes "csv";
  sheet = [];
  range = [];
  header_row = pos 1;
  decimal_separator = codes ".";
  column_delimiter = codes ";";
  row_delimiter = codes "\n";
  use_sample_rate = true;
  sample_rate_hz = 100;
  sample_rate_display_unit = codes "ms";
  columns =
      record {
        column_id = codes "B";
        role = signal;
        signal_name = codes "v";
        unit = [];
        row_start = pos 3;
        row_end = negsuc 0;
        x_source_column = codes "A";
        use_sample_rate = false;
        sample_rate_hz = 0;
        sample_rate_display_unit = codes "ms";
        reset_time_to_zero = true;
        time_offset_sec = 5;
        collapse_duplicates = keep_mean;
        collapse_value_plateaus = last_of_run;
      }
      ∷ [];
}

-- The document of the profile.
abbrev document : JsonTree
document = profile_to_json (tree_json no_fields) profile

load-save_example : load (tree_json document) 0 (save (tree_json document) profile) ≡ some profile
unfolding profile_to_json column_to_json
load-save_example = load-save (tree_json document) 0 (tree_laws document) profile refl

profile_from_metadata-metadata_json_example :
    (p : ConverterProfile ℕ) × (profile_from_metadata
        (tree_json no_fields)
        0
        (metadata_json (tree_json no_fields) [] (columns options (speed ∷ spectrum ∷ [])))
      ≡ some p)
    × AreColumns
        (columns options (speed ∷ spectrum ∷ []))
        0
        (columns options (speed ∷ spectrum ∷ []))
        p.columns
profile_from_metadata-metadata_json_example =
    profile_from_metadata-metadata_json (tree_json no_fields) 0 (tree_laws no_fields) options
      (speed ∷ spectrum ∷ [])
