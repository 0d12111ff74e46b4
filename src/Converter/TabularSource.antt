-- ===== src/Converter/TabularSource.antt =====
-- The parts of the tabular import that decide what is read (`TabularSource`,
-- converter/src/TabularSource.cpp, with the mappings of
-- converter/include/scope/converter/ConverterProfile.h): the grid, the rows of a channel and the
-- source of its X axis. Floating-point settings are of a type that the code here only copies.
pub mod Rows
pub mod Labels
pub mod Collapse
pub mod Vectors
pub mod Cells
pub mod Reading
pub mod Apply
use scope_analyser.Prelude.{
  ℕ, ◌+◌, max, Bool, true, false, not, ◌&&◌, ◌||◌, Option, none, some, List, [], ◌∷◌, ◌++◌, length,
  get_elem?, is_empty, if◌then◌else◌,
}
use scope_analyser.Prelude.Int.{ℤ, pos, negsuc, pos_part, ltb_ℤ, leb_ℤ, ◌-ℤ◌}
use scope_analyser.Prelude.Text.{QString, codes}
use scope_analyser.Prelude.Dict.{Dict, find, insert_or_assign}

pub data Role : Type 0 where
  ignore x_time x_frequency signal : Role

pub data CollapseMode : Type 0 where
  pass_through keep_first keep_last keep_mean : CollapseMode

pub data ValuePlateauMode : Type 0 where
  every_sample first_of_run last_of_run : ValuePlateauMode

-- `ColumnMapping`
pub record ColumnMapping (Real : Type 0) : Type 0 where
  pub column_id : QString
  pub role : Role
  pub signal_name : QString
  pub unit : QString
  pub row_start : ℤ
  pub row_end : ℤ
  pub x_source_column : QString
  pub use_sample_rate : Bool
  pub sample_rate_hz : Real
  pub sample_rate_display_unit : QString
  pub reset_time_to_zero : Bool
  pub time_offset_sec : Real
  pub collapse_duplicates : CollapseMode
  pub collapse_value_plateaus : ValuePlateauMode

-- `ConverterProfile`
pub record ConverterProfile (Real : Type 0) : Type 0 where
  pub version : ℤ
  pub source_type : QString
  pub sheet : QString
  pub range : QString
  pub header_row : ℤ
  pub decimal_separator : QString
  pub column_delimiter : QString
  pub row_delimiter : QString
  pub use_sample_rate : Bool
  pub sample_rate_hz : Real
  pub sample_rate_display_unit : QString
  pub columns : List (ColumnMapping Real)

abbrev pub Rows : Type 0
Rows = List (List QString)

unfoldable pub row_count : Rows → ℕ
row_count rows = length rows

unfoldable pub column_count : Rows → ℕ
column_count [] = 0
column_count (r ∷ rows) = max (length r) (column_count rows)

abbrev at_or_empty : Option QString → QString
at_or_empty none = []
at_or_empty (some t) = t

-- `cell`: empty outside the grid.
unfoldable pub cell : Rows → ℤ → ℤ → QString
cell rows (pos row) (pos col) = elim (get_elem? rows row) [
  | none ↦ []
  | some r ↦ at_or_empty (get_elem? r col)
]
cell rows _ _ = []

-- `headerRow`
unfoldable pub header_row_at : Rows → ℤ → List QString
header_row_at rows (pos row) = elim (get_elem? rows row) [ none ↦ [] | some r ↦ r ]
header_row_at rows (negsuc _) = []

abbrev pub min_ℤ : ℤ → ℤ → ℤ
min_ℤ a b = if leb_ℤ a b then a else b

module _ {Real : Type 0} (rows : Rows) (profile : ConverterProfile Real) where
  -- `resolveRange`: the first and the last row.
  unfoldable pub resolve_range : ColumnMapping Real → ℕ × ℤ
  unfolding ◌-ℤ◌
  resolve_range m =
      let default_start = pos (pos_part profile.header_row) in
      let default_end = pos (row_count rows) -ℤ pos 1 in
      let lo = if ltb_ℤ m.row_start (pos 0) then default_start else m.row_start in
      let hi = if ltb_ℤ m.row_end (pos 0) then default_end else m.row_end in
      (pos_part lo, min_ℤ hi (pos (row_count rows) -ℤ pos 1))

-- What the loop over the profile's columns collects.
pub record XIndex (Real : Type 0) : Type 0 where
  pub x_by_label : Dict (ColumnMapping Real)
  pub first_x_label : QString
  pub have_time_x : Bool
  pub have_freq_x : Bool
  pub y_specs : List (ℕ × ColumnMapping Real)

abbrev is_x : Role → Bool
is_x x_time = true
is_x x_frequency = true
is_x _ = false

abbrev is_role_time : Role → Bool
is_role_time x_time = true
is_role_time _ = false

abbrev is_role_frequency : Role → Bool
is_role_frequency x_frequency = true
is_role_frequency _ = false

abbrev is_role_signal : Role → Bool
is_role_signal signal = true
is_role_signal _ = false

module _ {Real : Type 0} (label_to_col : QString → ℤ) where
  -- A column whose label is understood, as the `col`-th.
  unfoldable pub index_column : ℕ → ColumnMapping Real → XIndex Real → XIndex Real
  index_column col c x =
      let with_x =
        if is_x c.role
        then record x {
          x_by_label = insert_or_assign c.column_id c x.x_by_label;
          first_x_label = if is_empty x.first_x_label then c.column_id else x.first_x_label;
          have_time_x = x.have_time_x || is_role_time c.role;
          have_freq_x = x.have_freq_x || is_role_frequency c.role;
        }
        else x in
      if is_role_signal c.role
      then record with_x { y_specs = with_x.y_specs ++ (col, c) ∷ [] }
      else with_x

  unfoldable pub index_columns : List (ColumnMapping Real) → XIndex Real → XIndex Real
  index_columns [] x = x
  index_columns (c ∷ r) x = elim (label_to_col c.column_id) [
    | pos col ↦ index_columns r (index_column col c x)
    | negsuc _ ↦ index_columns r x
  ]

-- Whether a channel leaves its X column open.
unfoldable pub unpinned : {Real : Type 0} → List (ℕ × ColumnMapping Real) → Bool
unpinned [] = false
unpinned ((_, y) ∷ r) = (is_empty y.x_source_column && not y.use_sample_rate) || unpinned r

-- Time and frequency columns together, with a channel that leaves its own open, are refused.
unfoldable pub is_ambiguous : {Real : Type 0} → XIndex Real → Bool
is_ambiguous x = x.have_time_x && x.have_freq_x && unpinned x.y_specs

pub data XStrategy (Real : Type 0) : Type 0 where
  by_rate : Real → XStrategy Real
  by_column : ColumnMapping Real → XStrategy Real
  -- the column that the channel names is not in the profile
  unknown_column : QString → XStrategy Real
  -- no X column, and no sample rate
  no_source : XStrategy Real

-- `resolveXStrategy`
unfoldable pub resolve_x_strategy :
    {Real : Type 0} → ConverterProfile Real → XIndex Real → ColumnMapping Real → XStrategy Real
resolve_x_strategy profile x y =
    let label = if not (is_empty y.x_source_column) then y.x_source_column else x.first_x_label in
    if y.use_sample_rate
    then by_rate y.sample_rate_hz
    else if not (is_empty label)
    then elim (find label x.x_by_label) [ none ↦ unknown_column label | some c ↦ by_column c ]
    else if profile.use_sample_rate
    then by_rate profile.sample_rate_hz
    else no_source

abbrev time_ladder : List QString
time_ladder = codes "s" ∷ codes "ms" ∷ codes "us" ∷ codes "µs" ∷ codes "ns" ∷ []

abbrev frequency_ladder : List QString
frequency_ladder = codes "Hz" ∷ codes "kHz" ∷ codes "MHz" ∷ []

module _ (same_text : QString → QString → Bool) where
  -- `inLadder`; `same_text` compares without regard to case.
  unfoldable pub in_ladder : QString → List QString → Bool
  in_ladder u [] = false
  in_ladder u (v ∷ r) = same_text u v || in_ladder u r

  abbrev is_off_ladder : {Real : Type 0} → ColumnMapping Real → Bool
  is_off_ladder x =
      (is_role_time x.role && not (is_empty x.unit) && not (in_ladder x.unit time_ladder))
      || (is_role_frequency x.role
          && not (is_empty x.unit)
          && not (in_ladder x.unit frequency_ladder))

  -- The X columns whose unit is warned of, with the unit; the words are left out.
  unfoldable pub unit_warnings :
      {Real : Type 0} → Dict (ColumnMapping Real) → List (QString × QString)
  unit_warnings [] = []
  unit_warnings ((_, x) ∷ r) =
      if is_off_ladder x then (x.column_id, x.unit) ∷ unit_warnings r else unit_warnings r
