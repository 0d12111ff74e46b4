-- ===== src/Converter/ConverterProfile.antt =====
-- The profile as a JSON document (`ConverterProfile::saveToFile` and `loadFromFile`,
-- converter/src/ConverterProfile.cpp). A document that throws when it is read is `none`; the fields
-- that were read before are left out then.
pub mod RoundTrip
pub mod Metadata
pub mod Agreement
pub mod Native
pub mod Header
use scope_analyser.Prelude.{
  ℕ, Bool, true, false, Option, none, some, List, [], ◌∷◌, map, if◌then◌else◌,
}
use scope_analyser.Prelude.Int.{ℤ, pos, negsuc}
use scope_analyser.Prelude.Text.{QString, codes, eq_text}
use scope_analyser.Prelude.Json.{JsonOps, ◌>>=◌, value}
use scope_analyser.Converter.TabularSource.{
  Role, ignore, x_time, x_frequency, signal, CollapseMode, pass_through, keep_first, keep_last,
  keep_mean, ValuePlateauMode, every_sample, first_of_run, last_of_run, ColumnMapping,
  ConverterProfile,
}

unfoldable pub role_name : Role → QString
role_name ignore = codes "ignore"
role_name x_time = codes "x_time"
role_name x_frequency = codes "x_frequency"
role_name signal = codes "signal"

unfoldable pub role_from_string : QString → Role
role_from_string s =
    if eq_text s (codes "x_time")
    then x_time
    else if eq_text s (codes "x_frequency")
    then x_frequency
    else if eq_text s (codes "signal")
    then signal
    else ignore

unfoldable pub collapse_name : CollapseMode → QString
collapse_name keep_first = codes "first"
collapse_name keep_last = codes "last"
collapse_name keep_mean = codes "mean"
collapse_name pass_through = codes "none"

unfoldable pub collapse_from_string : QString → CollapseMode
collapse_from_string s =
    if eq_text s (codes "first")
    then keep_first
    else if eq_text s (codes "last")
    then keep_last
    else if eq_text s (codes "mean")
    then keep_mean
    else pass_through

unfoldable pub plateau_name : ValuePlateauMode → QString
plateau_name first_of_run = codes "first"
plateau_name last_of_run = codes "last"
plateau_name every_sample = codes "none"

unfoldable pub plateau_from_string : QString → ValuePlateauMode
plateau_from_string s =
    if eq_text s (codes "first")
    then first_of_run
    else if eq_text s (codes "last")
    then last_of_run
    else every_sample

module _ {Real Json : Type 0} (json : JsonOps Real Json) (zero_real : Real) where
  abbrev text_at : Json → QString → QString → Option QString
  text_at = value json json.as_text

  abbrev bool_at : Json → QString → Bool → Option Bool
  bool_at = value json json.as_boolean

  abbrev int_at : Json → QString → ℤ → Option ℤ
  int_at = value json json.as_integer

  abbrev real_at : Json → QString → Real → Option Real
  real_at = value json json.as_number

  -- One entry of `columns`.
  unfoldable pub column_from_json : Json → Option (ColumnMapping Real)
  column_from_json jc = do
    column_id ← text_at jc (codes "col") []
    role ← text_at jc (codes "role") (codes "ignore")
    name ← text_at jc (codes "name") []
    unit ← text_at jc (codes "unit") []
    row_start ← int_at jc (codes "rowStart") (negsuc 0)
    row_end ← int_at jc (codes "rowEnd") (negsuc 0)
    x_source ← text_at jc (codes "xSourceColumn") []
    use_rate ← bool_at jc (codes "useSampleRate") false
    rate ← real_at jc (codes "sampleRateHz") zero_real
    rate_unit ← text_at jc (codes "sampleRateUnit") (codes "ms")
    reset ← bool_at jc (codes "resetTimeToZero") false
    offset ← real_at jc (codes "timeOffsetSec") zero_real
    duplicates ← text_at jc (codes "collapseDuplicates") (codes "none")
    plateaus ← text_at jc (codes "collapseValuePlateaus") (codes "none")
    some (record {
      column_id = column_id;
      role = role_from_string role;
      signal_name = name;
      unit = unit;
      row_start = row_start;
      row_end = row_end;
      x_source_column = x_source;
      use_sample_rate = use_rate;
      sample_rate_hz = rate;
      sample_rate_display_unit = rate_unit;
      reset_time_to_zero = reset;
      time_offset_sec = offset;
      collapse_duplicates = collapse_from_string duplicates;
      collapse_value_plateaus = plateau_from_string plateaus;
    })

  unfoldable pub columns_from_json : List Json → Option (List (ColumnMapping Real))
  columns_from_json [] = some []
  columns_from_json (j ∷ r) = do c ← column_from_json j; rest ← columns_from_json r; some (c ∷ rest)

  abbrev elements_of : Option Json → List Json
  elements_of none = []
  elements_of (some j) = json.elements j

  -- `loadFromFile`, from the parsed document on.
  unfoldable pub profile_from_json : Json → Option (ConverterProfile Real)
  profile_from_json j = do
    version ← int_at j (codes "version") (pos 1)
    source ← text_at j (codes "source") []
    sheet ← text_at j (codes "sheet") []
    range ← text_at j (codes "range") []
    header_row ← int_at j (codes "headerRow") (pos 1)
    decimal ← text_at j (codes "decimal") (codes ".")
    column_delimiter ← text_at j (codes "columnDelimiter") (codes ",")
    row_delimiter ← text_at j (codes "rowDelimiter") (codes "\n")
    use_rate ← bool_at j (codes "useSampleRate") false
    rate ← real_at j (codes "sampleRateHz") zero_real
    rate_unit ← text_at j (codes "sampleRateUnit") (codes "ms")
    columns ← columns_from_json (elements_of (json.member j (codes "columns")))
    some (record {
      version = version;
      source_type = source;
      sheet = sheet;
      range = range;
      header_row = header_row;
      decimal_separator = decimal;
      column_delimiter = column_delimiter;
      row_delimiter = row_delimiter;
      use_sample_rate = use_rate;
      sample_rate_hz = rate;
      sample_rate_display_unit = rate_unit;
      columns = columns;
    })

  -- `loadFromFile`, from the text of the file on.
  unfoldable pub load : QString → Option (ConverterProfile Real)
  load content = json.parse content >>= profile_from_json

module _ {Real Json : Type 0} (json : JsonOps Real Json) where
  unfoldable pub column_to_json : ColumnMapping Real → Json
  column_to_json c = json.object (
      (codes "col", json.text c.column_id)
      ∷ (codes "role", json.text (role_name c.role))
      ∷ (codes "name", json.text c.signal_name)
      ∷ (codes "unit", json.text c.unit)
      ∷ (codes "rowStart", json.integer c.row_start)
      ∷ (codes "rowEnd", json.integer c.row_end)
      ∷ (codes "xSourceColumn", json.text c.x_source_column)
      ∷ (codes "useSampleRate", json.boolean c.use_sample_rate)
      ∷ (codes "sampleRateHz", json.number c.sample_rate_hz)
      ∷ (codes "sampleRateUnit", json.text c.sample_rate_display_unit)
      ∷ (codes "resetTimeToZero", json.boolean c.reset_time_to_zero)
      ∷ (codes "timeOffsetSec", json.number c.time_offset_sec)
      ∷ (codes "collapseDuplicates", json.text (collapse_name c.collapse_duplicates))
      ∷ (codes "collapseValuePlateaus", json.text (plateau_name c.collapse_value_plateaus))
      ∷ [])

  unfoldable pub profile_to_json : ConverterProfile Real → Json
  profile_to_json p = json.object (
      (codes "version", json.integer p.version)
      ∷ (codes "source", json.text p.source_type)
      ∷ (codes "sheet", json.text p.sheet)
      ∷ (codes "range", json.text p.range)
      ∷ (codes "headerRow", json.integer p.header_row)
      ∷ (codes "decimal", json.text p.decimal_separator)
      ∷ (codes "columnDelimiter", json.text p.column_delimiter)
      ∷ (codes "rowDelimiter", json.text p.row_delimiter)
      ∷ (codes "useSampleRate", json.boolean p.use_sample_rate)
      ∷ (codes "sampleRateHz", json.number p.sample_rate_hz)
      ∷ (codes "sampleRateUnit", json.text p.sample_rate_display_unit)
      ∷ (codes "columns", json.array (map column_to_json p.columns))
      ∷ [])

  -- The text that `saveToFile` writes.
  unfoldable pub save : ConverterProfile Real → QString
  save p = json.dump (profile_to_json p)
