-- ===== src/Converter/CsvWriter/Columns.antt =====
-- The columns of an export and the metadata line that describes them (`ColDesc` and its uses in
-- `writeCsv`, converter/src/CsvWriter.cpp). JSON values are a parameter.
pub mod References
use scope_analyser.Prelude.{
  ℕ, ◌-◌, ◌<◌, ◌≡◌, ◌⊎◌, inl, inr, refl, ap, ◌∙◌, sym, Bool, true, false, not, Option, none, some,
  List, [], ◌∷◌, ◌++◌, All, All-append, get_elem?, get_elem?-append_left, get_elem?-append_last,
  lt-length_of_get_elem?, length, length-append, is_empty, if◌then◌else◌, arith, append_assoc, map,
}
use scope_analyser.Prelude.Int.{ℤ, pos, negsuc}
use scope_analyser.Prelude.Text.{QString, codes, eq_text}
use scope_analyser.Prelude.Json.{JsonOps}
use scope_analyser.Converter.CsvWriter.{
  Cache, CsvExportOptions, TimeMode, shared, per_signal, is_freq, time_caches, freq_caches,
  time_unit,
}

-- `ColDesc`
pub record ColDesc : Type 0 where
  pub role : QString
  pub unit : QString
  pub name : QString
  pub src : QString
  pub ref_x : ℤ

abbrev pub x_column : QString → QString → ColDesc
x_column role unit = record { role = role; unit = unit; name = []; src = []; ref_x = negsuc 0 }

module _ {Real : Type 0} where
  unfoldable pub signal_column : ℕ → Cache Real → ColDesc
  signal_column x_idx c = record {
    role = codes "signal";
    unit = c.signal.meta.unit;
    name = c.signal.meta.name;
    src = c.signal.meta.source_symbol;
    ref_x = pos x_idx;
  }

  abbrev pub signal_columns : ℕ → List (Cache Real) → List ColDesc
  signal_columns x_idx [] = []
  signal_columns x_idx (c ∷ r) = signal_column x_idx c ∷ signal_columns x_idx r

  -- The columns of one domain, behind those there are: an X column and its signals.
  unfoldable pub add_block : QString → QString → List (Cache Real) → List ColDesc → List ColDesc
  add_block role unit cs cols =
      let with_x = cols ++ x_column role unit ∷ [] in
      if is_empty cs then cols else with_x ++ signal_columns (length with_x - 1) cs

  unfoldable pub per_signal_columns : QString → List (Cache Real) → List ColDesc → List ColDesc
  per_signal_columns unit [] cols = cols
  per_signal_columns unit (c ∷ r) cols =
      let x =
        if is_freq c.signal
        then x_column (codes "x_frequency") (codes "Hz")
        else x_column (codes "x_time") unit in
      let with_x = cols ++ x ∷ [] in
      per_signal_columns unit r (with_x ++ signal_column (length with_x - 1) c ∷ [])

  abbrev pub columns_of : TimeMode → QString → List (Cache Real) → List ColDesc
  columns_of shared unit cs =
      add_block (codes "x_frequency") (codes "Hz") (freq_caches cs)
        (add_block (codes "x_time") unit (time_caches cs) [])
  columns_of per_signal unit cs = per_signal_columns unit cs []

  -- The column-descriptor list.
  unfoldable pub columns : CsvExportOptions → List (Cache Real) → List ColDesc
  columns opts cs = columns_of opts.time_mode (time_unit opts) cs

module _ {Real Json : Type 0} (json : JsonOps Real Json) where
  abbrev pub text_unless_empty : QString → QString → List (QString × Json)
  text_unless_empty key [] = []
  text_unless_empty key t = (key, json.text t) ∷ []

  unfoldable pub column_json : ColDesc → Json
  column_json c = json.object (
      (codes "role", json.text c.role)
      ∷ (codes "unit", json.text c.unit)
      ∷ (if eq_text c.role (codes "signal")
          then text_unless_empty (codes "name") c.name
            ++ (text_unless_empty (codes "src") c.src ++ (codes "refX", json.integer c.ref_x) ∷ [])
          else []))

  -- A layout that is no JSON is left out.
  abbrev layout_field : Option Json → List (QString × Json)
  layout_field none = []
  layout_field (some j) = (codes "layout", j) ∷ []

  abbrev layout_fields : QString → List (QString × Json)
  layout_fields layout = if is_empty layout then [] else layout_field (json.parse layout)

  unfoldable pub metadata_json : QString → List ColDesc → Json
  metadata_json layout cols = json.object (
      (codes "v", json.integer (pos 1))
      ∷ (codes "columns", json.array (map column_json cols))
      ∷ layout_fields layout)

  -- The line that starts with `# scope-csv: `.
  unfoldable pub metadata_line : QString → List ColDesc → QString
  metadata_line layout cols = codes "# scope-csv: " ++ json.dump (metadata_json layout cols)
