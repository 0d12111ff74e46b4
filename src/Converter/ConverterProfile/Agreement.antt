-- ===== src/Converter/ConverterProfile/Agreement.antt =====
-- The metadata line that the export writes (converter/src/CsvWriter.cpp), as the profile's reader
-- takes it (converter/src/ConverterProfile.cpp).
pub mod Columns
use mathlib.Core.Path.{subst}
use scope_analyser.Prelude.{
  ℕ, suc, ◌≡◌, refl, sym, inl, inr, false, some, List, [], ◌∷◌, ◌++◌, map, All,
}
use scope_analyser.Prelude.Int.{ℤ, negsuc}
use scope_analyser.Prelude.Text.{QString, codes, eq_text}
use scope_analyser.Prelude.Dict.{Dict, find}
use scope_analyser.Prelude.Json.{
  JsonOps, JsonLaws, text_field, int_field, optional, optional_field, value-missing, value-object,
}
use scope_analyser.Converter.TabularSource.Labels.{col_label}
use scope_analyser.Converter.CsvWriter.{Cache, CsvExportOptions}
use scope_analyser.Converter.CsvWriter.Columns.{
  ColDesc, x_column, column_json, text_unless_empty, metadata_json, columns,
}
use scope_analyser.Converter.CsvWriter.Columns.References.{
  Refers, is_x_column, refers_to, columns-Refers,
}
use scope_analyser.Converter.ConverterProfile.{role_from_string}
use scope_analyser.Converter.ConverterProfile.Metadata.{
  MetaColumn, meta_column, meta_columns, metadata_profile, profile_from_metadata,
}

-- A column as the export describes it.
abbrev pub described : ℕ → ColDesc → MetaColumn
described i c = record {
  letter = col_label i;
  role = role_from_string c.role;
  unit = c.unit;
  signal_name = c.name;
  ref_x = c.ref_x;
}

abbrev pub described_from : ℕ → List ColDesc → List MetaColumn
described_from i [] = []
described_from i (c ∷ r) = described i c ∷ described_from (suc i) r

module _ {Real Json : Type 0} (json : JsonOps Real Json) (zero_real : Real)
    (laws : JsonLaws json) where
  -- The fields of a signal's column.
  abbrev fields : QString → QString → QString → ℤ → Dict Json
  fields unit name src ref =
      (codes "role", json.text (codes "signal"))
      ∷ (codes "unit", json.text unit)
      ∷ (text_unless_empty json (codes "name") name
          ++ (text_unless_empty json (codes "src") src ++ (codes "refX", json.integer ref) ∷ []))

  name_found :
      (unit name src : QString) (ref : ℤ)
      → find (codes "name") (fields unit name src ref)
        ≡ optional json laws (fields unit name src ref) (codes "name") name
  unfolding find eq_text
  name_found unit [] [] ref = refl
  name_found unit [] (s ∷ src) ref = refl
  name_found unit (n ∷ name) src ref = refl

  src_found :
      (unit name src : QString) (ref : ℤ)
      → find (codes "src") (fields unit name src ref)
        ≡ optional json laws (fields unit name src ref) (codes "src") src
  unfolding find eq_text
  src_found unit [] [] ref = refl
  src_found unit [] (s ∷ src) ref = refl
  src_found unit (n ∷ name) [] ref = refl
  src_found unit (n ∷ name) (s ∷ src) ref = refl

  ref_found :
      (unit name src : QString) (ref : ℤ)
      → find (codes "refX") (fields unit name src ref) ≡ some (json.integer ref)
  unfolding find eq_text
  ref_found unit [] [] ref = refl
  ref_found unit [] (s ∷ src) ref = refl
  ref_found unit (n ∷ name) [] ref = refl
  ref_found unit (n ∷ name) (s ∷ src) ref = refl

  abbrev signal_desc : QString → QString → QString → ℤ → ColDesc
  signal_desc unit name src ref = record {
    role = codes "signal";
    unit = unit;
    name = name;
    src = src;
    ref_x = ref;
  }

  signal_meta :
      (i : ℕ) (unit name src : QString) (ref : ℤ)
      → meta_column json zero_real i (column_json json (signal_desc unit name src ref))
        ≡ some (described i (signal_desc unit name src ref))
  unfolding meta_column column_json find eq_text role_from_string
  signal_meta i unit name src ref =
      rw
        (
          text_field json laws _ (codes "role") (codes "signal") (codes "signal") refl,
          text_field json laws _ (codes "unit") [] unit refl,
          optional_field json laws _ (codes "name") name (name_found unit name src ref),
          optional_field json laws _ (codes "src") src (src_found unit name src ref),
          int_field json laws _ (codes "refX") (negsuc 0) ref (ref_found unit name src ref),
        )
        refl

  x_json :
      (role unit : QString)
      → eq_text role (codes "signal") ≡ false
      → column_json json (x_column role unit)
        ≡ json.object ((codes "role", json.text role) ∷ (codes "unit", json.text unit) ∷ [])
  unfolding column_json
  x_json role unit h = rw (h, column_json) refl

  x_meta :
      (i : ℕ) (role unit : QString)
      → eq_text role (codes "signal") ≡ false
      → meta_column json zero_real i (column_json json (x_column role unit))
        ≡ some (described i (x_column role unit))
  unfolding meta_column find eq_text
  x_meta i role unit h =
      rw
        (
          x_json role unit h,
          text_field json laws _ (codes "role") (codes "signal") role refl,
          text_field json laws _ (codes "unit") [] unit refl,
          value-missing json laws json.as_text _ (codes "name") [] refl,
          value-missing json laws json.as_text _ (codes "src") [] refl,
          value-missing json laws json.as_integer _ (codes "refX") (negsuc 0) refl,
        )
        refl

  column_meta :
      (i : ℕ) (all : List ColDesc) (c : ColDesc)
      → Refers all c
      → meta_column json zero_real i (column_json json c) ≡ some (described i c)
  unfolding eq_text
  column_meta i all c (is_x_column (inl (unit, e))) = rw e (x_meta i (codes "x_time") unit refl)
  column_meta i all c (is_x_column (inr e)) =
      rw e (x_meta i (codes "x_frequency") (codes "Hz") refl)
  column_meta i all c (refers_to k x e r g h) =
      let same : c ≡ signal_desc c.unit c.name c.src c.ref_x =
        λ i. record { role = e i; unit = c.unit; name = c.name; src = c.src; ref_x = c.ref_x } in
      subst
        (λ (d : ColDesc). meta_column json zero_real i (column_json json d) ≡ some (described i d))
        (sym same) (signal_meta i c.unit c.name c.src c.ref_x)

  meta_columns-map :
      (i : ℕ) (all cols : List ColDesc)
      → All (Refers all) cols
      → meta_columns json zero_real i (map (column_json json) cols) ≡ some (described_from i cols)
  unfolding meta_columns
  meta_columns-map i all [] h = refl
  meta_columns-map i all (c ∷ r) h =
      rw (column_meta i all c h.0, meta_columns-map (suc i) all r h.1) refl

  -- The profile that is read from an export's metadata.
  pub read_back :
      (opts : CsvExportOptions) (cs : List (Cache Real))
      → profile_from_metadata json zero_real (metadata_json json opts.layout_json (columns opts cs))
        ≡ some (metadata_profile zero_real (described_from 0 (columns opts cs)))
  unfolding profile_from_metadata metadata_json find eq_text
  read_back opts cs =
      rw
        (
          value-object json laws some _ (codes "columns") (json.array []) _ refl,
          laws.elements-array (map (column_json json) (columns opts cs)),
          meta_columns-map 0 (columns opts cs) (columns opts cs) (columns-Refers opts cs),
        )
        refl
