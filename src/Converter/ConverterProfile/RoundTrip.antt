-- ===== src/Converter/ConverterProfile/RoundTrip.antt =====
-- A profile that is saved and loaded is the same profile (converter/src/ConverterProfile.cpp).
use scope_analyser.Prelude.{◌≡◌, refl, false, some, List, [], ◌∷◌, map}
use scope_analyser.Prelude.Int.{pos, negsuc}
use scope_analyser.Prelude.Text.{codes, eq_text}
use scope_analyser.Prelude.Dict.{find}
use scope_analyser.Prelude.Json.{JsonOps, JsonLaws, text_field, int_field, bool_field, real_field}
use scope_analyser.Converter.TabularSource.{
  Role, ignore, x_time, x_frequency, signal, CollapseMode, pass_through, keep_first, keep_last,
  keep_mean, ValuePlateauMode, every_sample, first_of_run, last_of_run, ColumnMapping,
  ConverterProfile,
}
use scope_analyser.Converter.ConverterProfile.{
  role_name, role_from_string, collapse_name, collapse_from_string, plateau_name,
  plateau_from_string, column_to_json, column_from_json, columns_from_json, profile_to_json,
  profile_from_json, save, load,
}

role_from_string-role_name : (r : Role) → role_from_string (role_name r) ≡ r
unfolding role_from_string role_name eq_text
role_from_string-role_name ignore = refl
role_from_string-role_name x_time = refl
role_from_string-role_name x_frequency = refl
role_from_string-role_name signal = refl

collapse_from_string-collapse_name : (m : CollapseMode) → collapse_from_string (collapse_name m) ≡ m
unfolding collapse_from_string collapse_name eq_text
collapse_from_string-collapse_name pass_through = refl
collapse_from_string-collapse_name keep_first = refl
collapse_from_string-collapse_name keep_last = refl
collapse_from_string-collapse_name keep_mean = refl

plateau_from_string-plateau_name : (m : ValuePlateauMode) → plateau_from_string (plateau_name m) ≡ m
unfolding plateau_from_string plateau_name eq_text
plateau_from_string-plateau_name every_sample = refl
plateau_from_string-plateau_name first_of_run = refl
plateau_from_string-plateau_name last_of_run = refl

module _ {Real Json : Type 0} (json : JsonOps Real Json) (zero_real : Real)
    (laws : JsonLaws json) where
  column_from_json-column_to_json :
      (c : ColumnMapping Real) → column_from_json json zero_real (column_to_json json c) ≡ some c
  unfolding column_from_json column_to_json find eq_text
  column_from_json-column_to_json c =
      rw
        (
          text_field json laws _ (codes "col") [] c.column_id refl,
          text_field json laws _ (codes "role") (codes "ignore") (role_name c.role) refl,
          text_field json laws _ (codes "name") [] c.signal_name refl,
          text_field json laws _ (codes "unit") [] c.unit refl,
          int_field json laws _ (codes "rowStart") (negsuc 0) c.row_start refl,
          int_field json laws _ (codes "rowEnd") (negsuc 0) c.row_end refl,
          text_field json laws _ (codes "xSourceColumn") [] c.x_source_column refl,
          bool_field json laws _ (codes "useSampleRate") false c.use_sample_rate refl,
          real_field json laws _ (codes "sampleRateHz") zero_real c.sample_rate_hz refl,
          text_field json laws _ (codes "sampleRateUnit") (codes "ms") c.sample_rate_display_unit
              refl,
          bool_field json laws _ (codes "resetTimeToZero") false c.reset_time_to_zero refl,
          real_field json laws _ (codes "timeOffsetSec") zero_real c.time_offset_sec refl,
          text_field json laws _ (codes "collapseDuplicates") (codes "none")
              (collapse_name c.collapse_duplicates) refl,
          text_field json laws _ (codes "collapseValuePlateaus") (codes "none")
              (plateau_name c.collapse_value_plateaus) refl,
          role_from_string-role_name c.role,
          collapse_from_string-collapse_name c.collapse_duplicates,
          plateau_from_string-plateau_name c.collapse_value_plateaus,
        )
        refl

  columns_from_json-map :
      (cs : List (ColumnMapping Real))
      → columns_from_json json zero_real (map (column_to_json json) cs) ≡ some cs
  unfolding columns_from_json
  columns_from_json-map [] = refl
  columns_from_json-map (c ∷ r) =
      rw (column_from_json-column_to_json c, columns_from_json-map r) refl

  profile_from_json-profile_to_json :
      (p : ConverterProfile Real)
      → profile_from_json json zero_real (profile_to_json json p) ≡ some p
  unfolding profile_from_json profile_to_json find eq_text
  profile_from_json-profile_to_json p =
      rw
        (
          int_field json laws _ (codes "version") (pos 1) p.version refl,
          text_field json laws _ (codes "source") [] p.source_type refl,
          text_field json laws _ (codes "sheet") [] p.sheet refl,
          text_field json laws _ (codes "range") [] p.range refl,
          int_field json laws _ (codes "headerRow") (pos 1) p.header_row refl,
          text_field json laws _ (codes "decimal") (codes ".") p.decimal_separator refl,
          text_field json laws _ (codes "columnDelimiter") (codes ",") p.column_delimiter refl,
          text_field json laws _ (codes "rowDelimiter") (codes "\n") p.row_delimiter refl,
          bool_field json laws _ (codes "useSampleRate") false p.use_sample_rate refl,
          real_field json laws _ (codes "sampleRateHz") zero_real p.sample_rate_hz refl,
          text_field json laws _ (codes "sampleRateUnit") (codes "ms") p.sample_rate_display_unit
              refl,
          laws.member-object _ (codes "columns"),
          laws.elements-array (map (column_to_json json) p.columns),
          columns_from_json-map p.columns,
        )
        refl

  -- With a JSON library that reads values as they were built, where the text of the profile's
  -- document is parsed back into that document: a profile that is saved and loaded is the same in
  -- every field, whatever its columns.
  pub load-save :
      (p : ConverterProfile Real)
      → json.parse (json.dump (profile_to_json json p)) ≡ some (profile_to_json json p)
      → load json zero_real (save json p) ≡ some p
  unfolding load save
  load-save p h = rw h (profile_from_json-profile_to_json p)
