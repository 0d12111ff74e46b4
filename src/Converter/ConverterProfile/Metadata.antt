-- ===== src/Converter/ConverterProfile/Metadata.antt =====
-- The profile that a CSV file's metadata line describes (`profileFromScopeMetadata`,
-- converter/src/ConverterProfile.cpp). Its `columnLetter` is the loop of `colLabel`.
use scope_analyser.Prelude.{
  ℕ, suc, Bool, true, false, ◌&&◌, Option, none, some, List, [], ◌∷◌, ◌==◌, map, get_elem?,
  is_empty, if◌then◌else◌, ◌||◌,
}
use scope_analyser.Prelude.Int.{ℤ, pos, negsuc}
use scope_analyser.Prelude.Text.{QString, codes}
use scope_analyser.Prelude.Json.{JsonOps, ◌>>=◌, value}
use scope_analyser.Converter.TabularSource.{
  Role, ignore, signal, pass_through, every_sample, ColumnMapping, ConverterProfile,
}
use scope_analyser.Converter.TabularSource.Labels.{col_label}
use scope_analyser.Converter.ConverterProfile.{role_from_string}

-- A space or a tab.
abbrev is_blank : ℕ → Bool
is_blank c = (c == 32) || (c == 9)

abbrev is_line_blank : ℕ → Bool
is_line_blank c = is_blank c || (c == 13) || (c == 10)

unfoldable pub skip_blanks : QString → QString
skip_blanks [] = []
skip_blanks (c ∷ r) = let rest = skip_blanks r in if is_blank c then rest else c ∷ r

-- A text without the blanks at its end.
unfoldable pub drop_end : QString → QString
drop_end [] = []
drop_end (c ∷ r) =
    let rest = drop_end r in if is_line_blank c && is_empty rest then [] else c ∷ rest

-- The first of the lines, of five at most, that is not blank.
unfoldable pub first_non_blank : ℕ → List QString → QString
first_non_blank (suc n) (l ∷ r) =
    let rest = first_non_blank n r in
    let trimmed = skip_blanks (drop_end l) in if is_empty trimmed then rest else trimmed
first_non_blank _ _ = []

-- What follows the prefix, if the text has it.
unfoldable pub after_prefix : QString → QString → Option QString
after_prefix [] t = some t
after_prefix (c ∷ r) [] = none
after_prefix (c ∷ r) (d ∷ t) = let rest = after_prefix r t in if c == d then rest else none

-- `Tmp`: a column as the metadata has it.
pub record MetaColumn : Type 0 where
  pub letter : QString
  pub role : Role
  pub unit : QString
  pub signal_name : QString
  pub ref_x : ℤ

abbrev is_signal : Role → Bool
is_signal signal = true
is_signal _ = false

abbrev letter_or_empty : Option MetaColumn → QString
letter_or_empty none = []
letter_or_empty (some t) = t.letter

abbrev at_index : List MetaColumn → ℤ → Option MetaColumn
at_index ts (pos k) = get_elem? ts k
at_index ts (negsuc _) = none

module _ {Real : Type 0} (zero_real : Real) where
  -- A mapping with the settings that nothing else says.
  abbrev pub default_mapping : ColumnMapping Real
  default_mapping = record {
    column_id = [];
    role = ignore;
    signal_name = [];
    unit = [];
    row_start = negsuc 0;
    row_end = negsuc 0;
    x_source_column = [];
    use_sample_rate = false;
    sample_rate_hz = zero_real;
    sample_rate_display_unit = codes "ms";
    reset_time_to_zero = false;
    time_offset_sec = zero_real;
    collapse_duplicates = pass_through;
    collapse_value_plateaus = every_sample;
  }

  -- The second pass: a signal's X column by the letter of the column that it refers to.
  unfoldable pub mapping_of : List MetaColumn → MetaColumn → ColumnMapping Real
  mapping_of all t = record default_mapping {
    column_id = t.letter;
    role = t.role;
    unit = t.unit;
    signal_name = t.signal_name;
    x_source_column = if is_signal t.role then letter_or_empty (at_index all t.ref_x) else [];
  }

  unfoldable pub metadata_profile : List MetaColumn → ConverterProfile Real
  metadata_profile ts = record {
    version = pos 1;
    source_type = codes "csv";
    sheet = [];
    range = [];
    header_row = pos 1;
    decimal_separator = codes ".";
    column_delimiter = codes ",";
    row_delimiter = codes "\n";
    use_sample_rate = false;
    sample_rate_hz = zero_real;
    sample_rate_display_unit = codes "ms";
    columns = map (mapping_of ts) ts;
  }

module _ {Real Json : Type 0} (json : JsonOps Real Json) (zero_real : Real) where
  unfoldable pub meta_column : ℕ → Json → Option MetaColumn
  meta_column i jc = do
    role ← value json json.as_text jc (codes "role") (codes "signal")
    unit ← value json json.as_text jc (codes "unit") []
    name ← value json json.as_text jc (codes "name") []
    _ ← value json json.as_text jc (codes "src") []
    ref_x ← value json json.as_integer jc (codes "refX") (negsuc 0)
    some (record {
      letter = col_label i;
      role = role_from_string role;
      unit = unit;
      signal_name = name;
      ref_x = ref_x;
    })

  -- The first pass, from the column `i` on.
  unfoldable pub meta_columns : ℕ → List Json → Option (List MetaColumn)
  meta_columns i [] = some []
  meta_columns i (j ∷ r) = do t ← meta_column i j; rest ← meta_columns (suc i) r; some (t ∷ rest)

  unfoldable pub profile_from_metadata : Json → Option (ConverterProfile Real)
  profile_from_metadata root = do
    arr ← value json some root (codes "columns") (json.array [])
    ts ← meta_columns 0 (json.elements arr)
    some (metadata_profile zero_real ts)

  -- `profileFromScopeMetadata`, from the lines of the file on.
  unfoldable pub profile_from_scope_metadata : List QString → Option (ConverterProfile Real)
  profile_from_scope_metadata lines = do
    text ← after_prefix (codes "# scope-csv:") (first_non_blank 5 lines)
    root ← json.parse (skip_blanks text)
    profile_from_metadata root
