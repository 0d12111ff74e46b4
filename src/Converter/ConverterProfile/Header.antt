-- ===== src/Converter/ConverterProfile/Header.antt =====
-- The profile that is guessed from the header of a CSV file (`profileFromCsvHeader`,
-- converter/src/ConverterProfile.cpp), from the file's lines on. Its `columnLetter` is the loop of
-- `colLabel`; trimming is Qt's. What returns false is `none`.
pub mod Sources
use scope_analyser.Prelude.{
  ℕ, suc, ◌+◌, ◌-◌, Bool, true, false, not, ◌&&◌, ◌||◌, Option, none, some, List, [], ◌∷◌, ◌++◌,
  ◌==◌, ltb, length, take, drop, is_empty, if◌then◌else◌,
}
use scope_analyser.Prelude.Int.{pos}
use scope_analyser.Prelude.Text.{QString, codes, eq_text}
use scope_analyser.Converter.TabularSource.{
  Role, x_time, x_frequency, signal, ColumnMapping, ConverterProfile,
}
use scope_analyser.Converter.TabularSource.Labels.{col_label}
use scope_analyser.Converter.ConverterProfile.Metadata.{default_mapping}

abbrev starts_with : QString → QString → Bool
starts_with [] t = true
starts_with (c ∷ r) [] = false
starts_with (c ∷ r) (d ∷ t) = let rest = starts_with r t in c == d && rest

-- `QString::count`
unfoldable pub count_of : ℕ → QString → ℕ
count_of c [] = 0
count_of c (d ∷ t) = let rest = count_of c t in if c == d then suc rest else rest

-- The candidate that is met most often, the first among equals; `best` is one more than the count
-- that is to be beaten, so that it starts from 0 where the code starts from -1.
unfoldable pub best_separator : QString → ℕ → ℕ → List ℕ → ℕ
best_separator line best sep [] = sep
best_separator line best sep (c ∷ r) =
    let n = count_of c line in
    elim (ltb best (suc n)) [
      | true ↦ best_separator line (suc n) c r
      | false ↦ best_separator line best sep r
    ]

-- A comma, a semicolon, a tab and a bar.
unfoldable pub separator : QString → ℕ
separator line = best_separator line 0 44 (44 ∷ 59 ∷ 9 ∷ 124 ∷ [])

-- `QString::split`, with the part so far.
unfoldable pub split_at_char : ℕ → QString → QString → List QString
split_at_char sep part [] = part ∷ []
split_at_char sep part (c ∷ t) = elim (c == sep) [
  | true ↦ part ∷ split_at_char sep [] t
  | false ↦ split_at_char sep (part ++ c ∷ []) t
]

-- `QString::lastIndexOf`, `none` for -1.
unfoldable pub last_index_of : ℕ → QString → Option ℕ
last_index_of c [] = none
last_index_of c (d ∷ t) = elim (last_index_of c t) [
  | some i ↦ some (suc i)
  | none ↦ if c == d then some 0 else none
]

module _ {Real : Type 0} (trimmed : QString → QString) (zero_real : Real) where
  -- The first line that is neither blank nor a comment.
  unfoldable pub header_line : List QString → Option QString
  header_line [] = none
  header_line (l ∷ r) =
      let rest = header_line r in
      if is_empty (trimmed l) || starts_with (codes "#") (trimmed l) then rest else some l

  unfoldable pub is_shared_x : QString → Bool
  is_shared_x h =
      let t = trimmed h in
      eq_text t (codes "t")
      || eq_text t (codes "f")
      || starts_with (codes "t ") t
      || starts_with (codes "f ") t
      || starts_with (codes "t[") t
      || starts_with (codes "f[") t

  unfoldable pub is_freq_header : QString → Bool
  is_freq_header h =
      let t = trimmed h in
      eq_text t (codes "f")
      || starts_with (codes "f ") t
      || starts_with (codes "f[") t
      || starts_with (codes "f_") t

  abbrev name_unit_at : QString → Option ℕ → Option ℕ → QString × QString
  name_unit_at h (some opening) (some closing) =
      if ltb 0 opening && ltb opening closing && (suc closing == length h)
      then (trimmed (take opening h), trimmed (take (closing - opening - 1) (drop (opening + 1) h)))
      else (h, [])
  name_unit_at h _ _ = (h, [])

  -- `splitNameUnit`: "name [unit]".
  unfoldable pub split_name_unit : QString → QString × QString
  split_name_unit header =
      let h = trimmed header in name_unit_at h (last_index_of 91 h) (last_index_of 93 h)

  -- `addX`
  unfoldable pub x_header : ℕ → QString → ColumnMapping Real
  x_header col h = record (default_mapping zero_real) {
    column_id = col_label col;
    role = if is_freq_header h then x_frequency else x_time;
    unit = (split_name_unit h).1;
  }

  -- `addY`
  unfoldable pub y_header : ℕ → QString → QString → ℕ → ColumnMapping Real
  y_header col name unit x_col = record (default_mapping zero_real) {
    column_id = col_label col;
    role = signal;
    signal_name = name;
    unit = unit;
    x_source_column = col_label x_col;
  }

  -- A channel of the shared layout: none before the first X column, none without a name.
  abbrev pub shared_channel : ℕ → Option ℕ → QString × QString → List (ColumnMapping Real)
  shared_channel i none _ = []
  shared_channel i (some x_col) (name, unit) =
      if is_empty name then [] else y_header i name unit x_col ∷ []

  -- The loop of the shared layout, from the column `i` on, with the last X column.
  unfoldable pub shared_headers : ℕ → Option ℕ → List QString → List (ColumnMapping Real)
  shared_headers i cur [] = []
  shared_headers i cur (h ∷ r) = elim (is_shared_x h) [
    | true ↦ x_header i h ∷ shared_headers (suc i) (some i) r
    | false ↦ shared_channel i cur (split_name_unit h) ++ shared_headers (suc i) cur r
  ]

  abbrev pub pair_channel : ℕ → QString × QString → ColumnMapping Real
  pair_channel i (name, unit) =
      y_header (suc i) (if is_empty name then codes "Col" ++ col_label (suc i) else name) unit i

  -- The loop over the pairs; a last column on its own is left out.
  unfoldable pub pair_headers : ℕ → List QString → List (ColumnMapping Real)
  pair_headers i (x ∷ y ∷ r) =
      x_header i x ∷ pair_channel i (split_name_unit y) ∷ pair_headers (i + 2) r
  pair_headers i _ = []

  -- The shared layout, unless the third column is the X column of a second pair.
  unfoldable pub is_shared : List QString → Bool
  is_shared (a ∷ b ∷ c ∷ r) =
      is_shared_x a
      && (not (starts_with (codes "t_") (trimmed c)) && not (starts_with (codes "f_") (trimmed c)))
  is_shared (a ∷ r) = is_shared_x a
  is_shared [] = false

  abbrev is_channel : Role → Bool
  is_channel signal = true
  is_channel _ = false

  abbrev pub channel_count : List (ColumnMapping Real) → ℕ
  channel_count [] = 0
  channel_count (c ∷ r) = let rest = channel_count r in if is_channel c.role then suc rest else rest

  abbrev pub x_count : List (ColumnMapping Real) → ℕ
  x_count [] = 0
  x_count (c ∷ r) = let rest = x_count r in if is_channel c.role then rest else suc rest

  abbrev pub header_profile : ℕ → List (ColumnMapping Real) → ConverterProfile Real
  header_profile sep columns = record {
    version = pos 1;
    source_type = codes "csv";
    sheet = [];
    range = [];
    header_row = pos 1;
    decimal_separator = codes ".";
    column_delimiter = sep ∷ [];
    row_delimiter = codes "\n";
    use_sample_rate = false;
    sample_rate_hz = zero_real;
    sample_rate_display_unit = codes "ms";
    columns = columns;
  }

  unfoldable pub header_columns : List QString → List (ColumnMapping Real)
  header_columns headers =
      if is_shared headers then shared_headers 0 none headers else pair_headers 0 headers

  -- It takes an X column and a channel at least.
  abbrev pub with_both : ℕ → List (ColumnMapping Real) → Option (ConverterProfile Real)
  with_both sep columns =
      if (x_count columns == 0) || (channel_count columns == 0)
      then none
      else some (header_profile sep columns)

  abbrev pub profile_from_line : Option QString → Option (ConverterProfile Real)
  profile_from_line none = none
  profile_from_line (some line) =
      let sep = separator line in
      let headers = split_at_char sep [] line in
      if ltb (length headers) 2 then none else with_both sep (header_columns headers)

  -- `profileFromCsvHeader`
  unfoldable pub profile_from_csv_header : List QString → Option (ConverterProfile Real)
  profile_from_csv_header lines = profile_from_line (header_line lines)
