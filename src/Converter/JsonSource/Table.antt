-- ===== src/Converter/JsonSource/Table.antt =====
-- The choice of the form and the whole reader (`JsonSource::JsonSource`,
-- converter/src/JsonSource.cpp).
use scope_analyser.Prelude.{
  ℕ, zero, suc, max, Bool, false, ◌&&◌, Option, none, some, List, [], ◌∷◌, length, get_elem?,
  is_empty, ltb, if◌then◌else◌,
}
use scope_analyser.Prelude.Text.{QString, codes}
use scope_analyser.Prelude.Dict.{Dict}
use scope_analyser.Prelude.Json.{JsonOps, ◌>>=◌}
use scope_analyser.Converter.TabularSource.{Rows}
use scope_analyser.Converter.JsonSource.{
  ScalarOps, array_or_none, native_signals, native_rows, cell_to_str, cell_or_empty,
  flatten_records, flatten_columnar,
}

module _ {Real Json : Type 0} (json : JsonOps Real Json) (scalars : ScalarOps Real Json) where
  abbrev pub array_cols : List Json → ℕ
  array_cols [] = 0
  array_cols (j ∷ r) =
      let rest = array_cols r in
      if json.is_array j then max (length (json.elements j)) rest else rest

  abbrev pub column_names : ℕ → ℕ → List QString
  column_names zero c = []
  column_names (suc n) c = scalars.column_text (suc c) ∷ column_names n (suc c)

  abbrev pub array_row : ℕ → ℕ → List Json → List QString
  array_row zero c a = []
  array_row (suc n) c a = cell_or_empty json scalars (get_elem? a c) ∷ array_row n (suc c) a

  abbrev pub array_rows : ℕ → List Json → Rows
  array_rows cols [] = []
  array_rows cols (j ∷ r) =
      let rest = array_rows cols r in
      if json.is_array j then array_row cols 0 (json.elements j) ∷ rest else rest

  -- An array of arrays.
  unfoldable pub flatten_arrays : List Json → Option Rows
  flatten_arrays arr =
      let cols = array_cols arr in
      if ltb 0 cols then some (column_names cols 0 ∷ array_rows cols arr) else none

  abbrev pub value_rows : List Json → Rows
  value_rows [] = []
  value_rows (j ∷ r) = (cell_to_str json scalars j ∷ []) ∷ value_rows r

  -- By its first element; an empty array is no table.
  unfoldable pub flatten_array : List Json → Option Rows
  flatten_array [] = none
  flatten_array (j ∷ r) =
      if json.is_object j
      then flatten_records json scalars (j ∷ r)
      else if json.is_array j
      then flatten_arrays (j ∷ r)
      else some ((codes "value" ∷ []) ∷ value_rows (j ∷ r))

  abbrev pub starts_with_object : List Json → Bool
  starts_with_object [] = false
  starts_with_object (j ∷ _) = json.is_object j

  -- The first field that holds an array of objects.
  abbrev pub nested_records : Dict Json → Option (List Json)
  nested_records [] = none
  nested_records ((_, j) ∷ r) =
      let rest = nested_records r in
      if json.is_array j && starts_with_object (json.elements j)
      then some (json.elements j)
      else rest

  unfoldable pub flatten_object : Dict Json → Option Rows
  flatten_object fields = elim (nested_records fields) [
    | some records ↦ flatten_records json scalars records
    | none ↦ flatten_columnar json scalars fields
  ]

  unfoldable pub flatten : Json → Option Rows
  flatten root =
      if json.is_array root
      then flatten_array (json.elements root)
      else if json.is_object root
      then flatten_object (json.items root)
      else none

  -- A table needs two rows.
  unfoldable pub generic_rows : Json → Option Rows
  generic_rows root = flatten root >>= λ rows. if ltb (length rows) 2 then none else some rows

  abbrev pub signals_of : Json → Option (List Json)
  signals_of root =
      if json.is_object root
      then array_or_none json scalars (json.member root (codes "signals"))
      else none

  -- The grid of a document: signals that cannot be used leave it to the other forms.
  unfoldable pub load : Json → Option Rows
  load root = elim (signals_of root) [
    | none ↦ generic_rows root
    | some js ↦ native_signals json scalars js >>= λ ss.
        if is_empty ss then generic_rows root else some (native_rows json scalars ss)
  ]
