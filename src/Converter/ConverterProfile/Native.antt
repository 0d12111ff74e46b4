-- ===== src/Converter/ConverterProfile/Native.antt =====
-- The profile of a file in the native JSON form (`profileFromScopeJson`,
-- converter/src/ConverterProfile.cpp). What throws is `none`, and so is a file in another form.
pub mod Columns
use scope_analyser.Prelude.{
  ℕ, zero, suc, ◌+◌, ◌≡◌, refl, ap, sym, ◌∙◌, some_inj, Bool, true, false, not, ◌&&◌, Bool-cases,
  Option, none, some, Option-cases, inl, inr, ◌⊎◌, List, [], ◌∷◌, is_empty, if◌then◌else◌,
}
use mathlib.Core.Path.{subst}
use scope_analyser.Prelude.Int.{ℤ, pos, negsuc}
use scope_analyser.Prelude.Text.{QString, codes, eq_text}
use scope_analyser.Prelude.Json.{JsonOps, ◌>>=◌, value}
use scope_analyser.Converter.TabularSource.{
  Role, x_time, x_frequency, signal, ColumnMapping, ConverterProfile,
}
use scope_analyser.Converter.TabularSource.Labels.{col_label}
use scope_analyser.Converter.ConverterProfile.Metadata.{default_mapping}

module _ {Real Json : Type 0} (json : JsonOps Real Json) (zero_real : Real) where
  abbrev pub is_array_at : Option Json → Bool
  is_array_at none = false
  is_array_at (some j) = json.is_array j

  -- A signal with its two arrays.
  unfoldable pub is_usable : Json → Bool
  is_usable j =
      json.is_object j
      && is_array_at (json.member j (codes "t"))
      && is_array_at (json.member j (codes "v"))

  unfoldable pub x_mapping : ℕ → Bool → ColumnMapping Real
  x_mapping col freq = record (default_mapping zero_real) {
    column_id = col_label col;
    role = if freq then x_frequency else x_time;
    unit = if freq then codes "Hz" else codes "ns";
  }

  unfoldable pub y_mapping : ℕ → QString → QString → ColumnMapping Real
  y_mapping col name unit = record (default_mapping zero_real) {
    column_id = col_label (col + 1);
    role = signal;
    signal_name = name;
    unit = unit;
    x_source_column = col_label col;
  }

  -- The loop over the signals, from the column `col` on.
  unfoldable pub native_columns : ℕ → List Json → Option (List (ColumnMapping Real))
  native_columns col [] = some []
  native_columns col (j ∷ r) = elim (is_usable j) [
    | false ↦ native_columns col r
    | true ↦ value json json.as_text j (codes "name") [] >>= λ name.
        value json json.as_text j (codes "unit") [] >>= λ unit.
        value json json.as_text j (codes "domain") (codes "time") >>= λ domain.
        native_columns (col + 2) r >>= λ rest.
        some (x_mapping col (eq_text domain (codes "frequency")) ∷ y_mapping col name unit ∷ rest)
  ]

  abbrev pub native_profile : List (ColumnMapping Real) → ConverterProfile Real
  native_profile columns = record {
    version = pos 1;
    source_type = codes "json";
    sheet = [];
    range = [];
    header_row = pos 1;
    decimal_separator = codes ".";
    column_delimiter = codes ",";
    row_delimiter = codes "\n";
    use_sample_rate = false;
    sample_rate_hz = zero_real;
    sample_rate_display_unit = codes "ms";
    columns = columns;
  }

  abbrev pub signals_at : Option Json → Option (List Json)
  signals_at none = none
  signals_at (some j) = if json.is_array j then some (json.elements j) else none

  -- `profileFromScopeJson`, from the parsed document on.
  unfoldable pub profile_from_scope_json : Json → Option (ConverterProfile Real)
  profile_from_scope_json root =
      (if json.is_object root then signals_at (json.member root (codes "signals")) else none)
      >>= λ js. native_columns 0 js >>= λ columns.
          if is_empty columns then none else some (native_profile columns)
