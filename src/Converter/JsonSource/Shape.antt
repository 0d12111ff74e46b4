-- ===== src/Converter/JsonSource/Shape.antt =====
-- The grid of a JSON file is a rectangle (converter/src/JsonSource.cpp).
use scope_analyser.Prelude.{
  ℕ, zero, suc, ◌≡◌, refl, ap, ◌∙◌, Bool, true, false, Option, none, some, Option-cases, inl, inr,
  List, [], ◌∷◌, All, length, length-set, replicate, set, is_empty, ltb, if◌then◌else◌,
}
use scope_analyser.Prelude.Text.{QString}
use scope_analyser.Prelude.Dict.{Dict}
use scope_analyser.Prelude.Json.{JsonOps, ◌>>=◌}
use scope_analyser.Converter.TabularSource.{Rows}
use scope_analyser.Converter.JsonSource.{
  ScalarOps, NativeSignal, native_header, native_row, native_rows, native_signals, rows_from,
  record_rows, record_keys, fill_row, key_index, cell_to_str, flatten_records, field_names,
  field_row, array_fields, flatten_columnar,
}
use scope_analyser.Converter.JsonSource.Table.{
  array_row, array_rows, array_cols, column_names, flatten_arrays, value_rows, flatten_array,
  nested_records, flatten_object, flatten, generic_rows, signals_of, load,
}

-- Every row has as many cells as the first.
unfoldable pub IsRectangle : Rows → Type 0
IsRectangle [] = Unit
IsRectangle (header ∷ rows) = All (λ r. length r ≡ length header) rows

-- A grid that is read is a rectangle.
unfoldable pub GivesRectangle : Option Rows → Type 0
GivesRectangle none = Unit
GivesRectangle (some rows) = IsRectangle rows

either :
    (b : Bool) (o o' : Option Rows)
    → GivesRectangle o
    → GivesRectangle o'
    → GivesRectangle (if b then o else o')
either true o o' h k = h
either false o o' h k = k

nothing : GivesRectangle none
unfolding GivesRectangle
nothing = tt

some_rectangle : (rows : Rows) → IsRectangle rows → GivesRectangle (some rows)
unfolding GivesRectangle
some_rectangle rows h = h

either_rows :
    (P : List QString → Type 0) (b : Bool) (x : List QString) (rows : Rows)
    → P x
    → All P rows
    → All P (if b then x ∷ rows else rows)
either_rows P true x rows h k = (h, k)
either_rows P false x rows h k = k

All-from :
    (w : ℕ) (row : ℕ → List QString)
    → ((i : ℕ) → length (row i) ≡ w)
    → (n i : ℕ) → All (λ r. length r ≡ w) (rows_from row n i)
All-from w row h zero i = tt
All-from w row h (suc n) i = (h i, All-from w row h n (suc i))

module _ {Real Json : Type 0} (json : JsonOps Real Json) (scalars : ScalarOps Real Json) where
  length-native_row :
      (i : ℕ) (ss : List (NativeSignal Json))
      → length (native_row json scalars i ss) ≡ length (native_header json scalars ss)
  unfolding native_row native_header
  length-native_row i [] = refl
  length-native_row i (s ∷ r) = ap (λ (n : ℕ). suc (suc n)) (length-native_row i r)

  native_rows-IsRectangle :
      (ss : List (NativeSignal Json)) → IsRectangle (native_rows json scalars ss)
  unfolding native_rows IsRectangle
  native_rows-IsRectangle ss =
      All-from _ (λ i. native_row json scalars i ss) (λ i. length-native_row i ss) _ 0

  length-fill_row :
      (keys : List QString) (fields : Dict Json) (row : List QString)
      → length (fill_row json scalars keys fields row) ≡ length row
  length-fill_row keys [] row = refl
  length-fill_row keys ((k, j) ∷ r) row =
      length-fill_row keys r (set row (key_index keys k) (cell_to_str json scalars j))
      ∙ length-set row (key_index keys k) (cell_to_str json scalars j)

  length-blank : (n : ℕ) → length (replicate {A = QString} n []) ≡ n
  length-blank zero = refl
  length-blank (suc n) = ap suc (length-blank n)

  record_rows-width :
      (keys : List QString) (arr : List Json)
      → All (λ r. length r ≡ length keys) (record_rows json scalars keys arr)
  unfolding record_rows
  record_rows-width keys [] = tt
  record_rows-width keys (j ∷ r) =
      either_rows _ (json.is_object j) _ _
        (length-fill_row keys (json.items j) (replicate (length keys) [])
          ∙ length-blank (length keys))
        (record_rows-width keys r)

  flatten_records-IsRectangle :
      (arr : List Json) → GivesRectangle (flatten_records json scalars arr)
  unfolding flatten_records GivesRectangle IsRectangle
  flatten_records-IsRectangle arr =
      let keys = record_keys json scalars arr [] in
      either (is_empty keys) none (some (keys ∷ record_rows json scalars keys arr)) tt
        (record_rows-width keys arr)

  length-field_row :
      (i : ℕ) (fields : List (QString × List Json))
      → length (field_row json scalars i fields) ≡ length (field_names json scalars fields)
  length-field_row i [] = refl
  length-field_row i (f ∷ r) = ap suc (length-field_row i r)

  flatten_columnar-IsRectangle :
      (obj : Dict Json) → GivesRectangle (flatten_columnar json scalars obj)
  unfolding flatten_columnar GivesRectangle IsRectangle
  flatten_columnar-IsRectangle obj =
      let fields = array_fields json scalars obj in
      either (is_empty fields) none (some _) tt
        (All-from _ (λ i. field_row json scalars i fields) (λ i. length-field_row i fields) _ 0)

  length-array_row : (n c : ℕ) (a : List Json) → length (array_row json scalars n c a) ≡ n
  length-array_row zero c a = refl
  length-array_row (suc n) c a = ap suc (length-array_row n (suc c) a)

  length-column_names : (n c : ℕ) → length (column_names json scalars n c) ≡ n
  length-column_names zero c = refl
  length-column_names (suc n) c = ap suc (length-column_names n (suc c))

  array_rows-width :
      (cols : ℕ) (arr : List Json) → All (λ r. length r ≡ cols) (array_rows json scalars cols arr)
  array_rows-width cols [] = tt
  array_rows-width cols (j ∷ r) =
      either_rows _ (json.is_array j) _ _ (length-array_row cols 0 (json.elements j))
        (array_rows-width cols r)

  flatten_arrays-IsRectangle : (arr : List Json) → GivesRectangle (flatten_arrays json scalars arr)
  unfolding flatten_arrays GivesRectangle IsRectangle
  flatten_arrays-IsRectangle arr =
      let cols = array_cols json scalars arr in
      either (ltb 0 cols) (some _) none
        (rw (length-column_names cols 0) (array_rows-width cols arr)) tt

  value_rows-width : (arr : List Json) → All (λ r. length r ≡ 1) (value_rows json scalars arr)
  value_rows-width [] = tt
  value_rows-width (j ∷ r) = (refl, value_rows-width r)

  flatten_array-IsRectangle : (arr : List Json) → GivesRectangle (flatten_array json scalars arr)
  unfolding flatten_array GivesRectangle IsRectangle
  flatten_array-IsRectangle [] = tt
  flatten_array-IsRectangle (j ∷ r) =
      either (json.is_object j) (flatten_records json scalars (j ∷ r)) _
        (flatten_records-IsRectangle (j ∷ r))
        (either (json.is_array j) (flatten_arrays json scalars (j ∷ r)) (some _)
          (flatten_arrays-IsRectangle (j ∷ r)) (value_rows-width (j ∷ r)))

  flatten_object-IsRectangle :
      (fields : Dict Json) → GivesRectangle (flatten_object json scalars fields)
  unfolding flatten_object
  flatten_object-IsRectangle fields = elim (Option-cases (nested_records json scalars fields)) [
    | inl e ↦ rw (e, flatten_object) (flatten_columnar-IsRectangle fields)
    | inr (records, e) ↦ rw (e, flatten_object) (flatten_records-IsRectangle records)
  ]

  flatten-IsRectangle : (root : Json) → GivesRectangle (flatten json scalars root)
  unfolding flatten
  flatten-IsRectangle root =
      either (json.is_array root) (flatten_array json scalars (json.elements root)) _
        (flatten_array-IsRectangle (json.elements root))
        (either (json.is_object root) (flatten_object json scalars (json.items root)) none
          (flatten_object-IsRectangle (json.items root)) nothing)

  two_rows :
      (o : Option Rows)
      → GivesRectangle o
      → GivesRectangle (o >>= λ rows. if ltb (length rows) 2 then none else some rows)
  two_rows none h = nothing
  two_rows (some rows) h = either (ltb (length rows) 2) none (some rows) nothing h

  generic_rows-IsRectangle : (root : Json) → GivesRectangle (generic_rows json scalars root)
  unfolding generic_rows
  generic_rows-IsRectangle root = two_rows (flatten json scalars root) (flatten-IsRectangle root)

  native_or_generic :
      (root : Json) (o : Option (List (NativeSignal Json)))
      → GivesRectangle (
          o >>= λ ss.
          if is_empty ss
          then generic_rows json scalars root
          else some (native_rows json scalars ss))
  native_or_generic root none = nothing
  native_or_generic root (some ss) =
      either (is_empty ss) (generic_rows json scalars root) (some (native_rows json scalars ss))
        (generic_rows-IsRectangle root) (some_rectangle _ (native_rows-IsRectangle ss))

  -- Whatever the document, native or in another form: in a grid that is read from it, each row has
  -- as many cells as the header.
  pub load-IsRectangle : (root : Json) → GivesRectangle (load json scalars root)
  unfolding load
  load-IsRectangle root = elim (Option-cases (signals_of json scalars root)) [
    | inl e ↦ rw (e, load) (generic_rows-IsRectangle root)
    | inr (js, e) ↦ rw (e, load) (native_or_generic root (native_signals json scalars js))
  ]
