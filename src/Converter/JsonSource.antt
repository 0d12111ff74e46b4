-- ===== src/Converter/JsonSource.antt =====
-- The reader of JSON files (`JsonSource`, converter/src/JsonSource.cpp): a grid of cells from the native
-- form, with two columns for each signal, or from a table in another form. What throws is `none`; the
-- library's objects keep the order of their fields.
pub mod Table
pub mod Shape
use scope_analyser.Prelude.{
  ℕ, zero, suc, ◌+◌, max, Bool, true, false, not, ◌&&◌, Option, none, some, List, [], ◌∷◌, ◌++◌,
  length, get_elem?, set, replicate, is_empty, ltb, if◌then◌else◌, map,
}
use scope_analyser.Prelude.Int.{ℤ}
use scope_analyser.Prelude.Text.{QString, codes, eq_text, contains}
use scope_analyser.Prelude.Dict.{Dict}
use scope_analyser.Prelude.Json.{JsonOps, ◌>>=◌, value}
use scope_analyser.Converter.TabularSource.{Rows}

-- How a scalar is read and printed: integers exactly, doubles with 17 digits.
pub record ScalarOps (Real Json : Type 0) : Type 0 where
  pub integer_value : Json → Option ℤ
  pub float_value : Json → Option Real
  -- the value of any number, as a double
  pub number_value : Json → Option Real
  pub integer_text : ℤ → QString
  pub float_text : Real → QString
  -- a double divided by 1e9
  pub to_hertz : Real → Real
  -- `QString("col%1")`
  pub column_text : ℕ → QString

-- A signal of the native form that has its two arrays.
pub record NativeSignal (Json : Type 0) : Type 0 where
  pub name : QString
  pub is_frequency : Bool
  pub t : List Json
  pub v : List Json

-- The rows from `i` on, `n` of them.
abbrev pub rows_from : (ℕ → List QString) → ℕ → ℕ → Rows
rows_from row zero i = []
rows_from row (suc n) i = row i ∷ rows_from row n (suc i)

-- `keyIndex`: behind the list where the key is not in it.
abbrev key_index : List QString → QString → ℕ
key_index [] k = 0
key_index (x ∷ r) k = let rest = key_index r k in if eq_text x k then 0 else suc rest

module _ {Real Json : Type 0} (json : JsonOps Real Json) (scalars : ScalarOps Real Json) where
  abbrev bool_or_text : Option Bool → Option QString → QString
  bool_or_text (some b) _ = if b then codes "1" else codes "0"
  bool_or_text none (some t) = t
  bool_or_text none none = []

  abbrev float_or_other : Option Real → Json → QString
  float_or_other (some x) j = scalars.float_text x
  float_or_other none j = bool_or_text (json.as_boolean j) (json.as_text j)

  -- `cellToStr`: anything but a scalar is an empty cell.
  unfoldable pub cell_to_str : Json → QString
  cell_to_str j = elim (scalars.integer_value j) [
    | some n ↦ scalars.integer_text n
    | none ↦ float_or_other (scalars.float_value j) j
  ]

  abbrev pub array_or_none : Option Json → Option (List Json)
  array_or_none none = none
  array_or_none (some j) = if json.is_array j then some (json.elements j) else none

  -- The arrays `t` and `v`, where both are there.
  unfoldable pub arrays_of : Json → Option (List Json × List Json)
  arrays_of j =
      if json.is_object j
      then (array_or_none (json.member j (codes "t")) >>= λ t.
          array_or_none (json.member j (codes "v")) >>= λ v. some (t, v))
      else none

  unfoldable pub native_signal : Json → List Json × List Json → Option (NativeSignal Json)
  native_signal j (t, v) = do
    name ← value json json.as_text j (codes "name") []
    domain ← value json json.as_text j (codes "domain") (codes "time")
    some (record { name = name; is_frequency = eq_text domain (codes "frequency"); t = t; v = v })

  -- The signals that can be used; a field of another type throws.
  unfoldable pub native_signals : List Json → Option (List (NativeSignal Json))
  native_signals [] = some []
  native_signals (j ∷ r) = elim (arrays_of j) [
    | none ↦ native_signals r
    | some arrays ↦ native_signal j arrays >>= λ s. native_signals r >>= λ rest. some (s ∷ rest)
  ]

  unfoldable pub native_header : List (NativeSignal Json) → List QString
  native_header [] = []
  native_header (s ∷ r) =
      ((if s.is_frequency then codes "f_" else codes "t_") ++ s.name) ∷ s.name ∷ native_header r

  abbrev scaled : Option Real → Json → QString
  scaled (some x) j = scalars.float_text (scalars.to_hertz x)
  scaled none j = cell_to_str j

  abbrev native_cell : Bool → Option Json → QString
  native_cell hz none = []
  native_cell hz (some j) = if hz then scaled (scalars.number_value j) j else cell_to_str j

  unfoldable pub native_row : ℕ → List (NativeSignal Json) → List QString
  native_row i [] = []
  native_row i (s ∷ r) =
      native_cell s.is_frequency (get_elem? s.t i)
      ∷ native_cell false (get_elem? s.v i)
      ∷ native_row i r

  abbrev native_len : List (NativeSignal Json) → ℕ
  native_len [] = 0
  native_len (s ∷ r) = max (max (length s.t) (length s.v)) (native_len r)

  unfoldable pub native_rows : List (NativeSignal Json) → Rows
  native_rows ss = native_header ss ∷ rows_from (λ i. native_row i ss) (native_len ss) 0

  -- The keys of the records, in the order in which they turn up.
  abbrev pub add_keys : Dict Json → List QString → List QString
  add_keys [] keys = keys
  add_keys ((k, _) ∷ r) keys = add_keys r (if contains keys k then keys else keys ++ k ∷ [])

  abbrev pub record_keys : List Json → List QString → List QString
  record_keys [] keys = keys
  record_keys (j ∷ r) keys =
      record_keys r (if json.is_object j then add_keys (json.items j) keys else keys)

  abbrev pub fill_row : List QString → Dict Json → List QString → List QString
  fill_row keys [] row = row
  fill_row keys ((k, j) ∷ r) row = fill_row keys r (set row (key_index keys k) (cell_to_str j))

  unfoldable pub record_rows : List QString → List Json → Rows
  record_rows keys [] = []
  record_rows keys (j ∷ r) =
      let rest = record_rows keys r in
      if json.is_object j
      then fill_row keys (json.items j) (replicate (length keys) []) ∷ rest
      else rest

  -- `flattenRecords`
  unfoldable pub flatten_records : List Json → Option Rows
  flatten_records arr =
      let keys = record_keys arr [] in
      if is_empty keys then none else some (keys ∷ record_rows keys arr)

  -- The fields that hold an array.
  abbrev pub array_fields : Dict Json → List (QString × List Json)
  array_fields [] = []
  array_fields ((k, j) ∷ r) =
      let rest = array_fields r in if json.is_array j then (k, json.elements j) ∷ rest else rest

  abbrev pub field_names : List (QString × List Json) → List QString
  field_names [] = []
  field_names ((k, _) ∷ r) = k ∷ field_names r

  abbrev pub cell_or_empty : Option Json → QString
  cell_or_empty none = []
  cell_or_empty (some j) = cell_to_str j

  abbrev pub field_row : ℕ → List (QString × List Json) → List QString
  field_row i [] = []
  field_row i ((_, a) ∷ r) = cell_or_empty (get_elem? a i) ∷ field_row i r

  abbrev field_len : List (QString × List Json) → ℕ
  field_len [] = 0
  field_len ((_, a) ∷ r) = max (length a) (field_len r)

  -- `flattenColumnar`
  unfoldable pub flatten_columnar : Dict Json → Option Rows
  flatten_columnar obj =
      let fields = array_fields obj in
      if is_empty fields
      then none
      else some (field_names fields ∷ rows_from (λ i. field_row i fields) (field_len fields) 0)
