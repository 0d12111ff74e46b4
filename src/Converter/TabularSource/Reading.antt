-- ===== src/Converter/TabularSource/Reading.antt =====
-- The loops over the rows of a channel (`TabularSource::apply`, converter/src/TabularSource.cpp).
pub mod Lengths
use scope_analyser.Prelude.{
  ℕ, zero, suc, ◌+◌, ◌-◌, max, Bool, true, false, ◌||◌, Option, none, some, List, [], ◌∷◌, ◌++◌,
  ◌==◌, get_elem?, is_empty, if◌then◌else◌,
}
use scope_analyser.Prelude.Int.{ℤ, pos, negsuc, leb_ℤ}
use scope_analyser.Prelude.Text.{QString}
use scope_analyser.Converter.TabularSource.{
  Role, x_frequency, ColumnMapping, ConverterProfile, Rows, resolve_range, min_ℤ,
}
use scope_analyser.Converter.TabularSource.Cells.{CellOps, try_val, try_ns, try_freq_storage}
use scope_analyser.Converter.TabularSource.Vectors.{Vectors}

-- `BadCellStats`
pub record BadCells : Type 0 where
  pub count : ℕ
  pub first_example : QString
  pub first_row : ℤ

abbrev pub no_bad_cells : BadCells
no_bad_cells = record { count = 0; first_example = []; first_row = negsuc 0 }

-- `bumpBad`
unfoldable pub bump_bad : QString → ℕ → BadCells → BadCells
bump_bad example row s = record {
  count = s.count + 1;
  first_example = if s.count == 0 then example else s.first_example;
  first_row = if s.count == 0 then pos row else s.first_row;
}

-- The two calls of `push_back`.
abbrev pub push : {Real : Type 0} → ℤ → Real → Vectors Real → Vectors Real
push t v read = record { ts = read.ts ++ t ∷ []; vs = read.vs ++ v ∷ [] }

-- What a loop has read, and the cells that were no numbers.
pub record Reading (Real : Type 0) : Type 0 where
  pub read : Vectors Real
  pub x_bad : BadCells
  pub y_bad : BadCells

abbrev pub cell_at : List QString → ℤ → Option QString
cell_at r (pos col) = get_elem? r col
cell_at r (negsuc _) = none

abbrev pub is_frequency : Role → Bool
is_frequency x_frequency = true
is_frequency _ = false

-- How many rows there are from `lo` up to `hi`.
abbrev pub rows_between : ℕ → ℤ → ℕ
rows_between lo (pos hi) = suc hi - lo
rows_between lo (negsuc _) = 0

module _ {Real : Type 0} where
  -- The loop over `n` rows from `row` on.
  unfoldable pub read_rows : (ℕ → Reading Real → Reading Real) → ℕ → ℕ → Reading Real → Reading Real
  read_rows body row zero st = st
  read_rows body row (suc n) st = read_rows body (suc row) n (body row st)

  module _ (ops : CellOps Real) (profile : ConverterProfile Real) (rows : Rows) where
    abbrev flag : Bool → QString → ℕ → BadCells → BadCells
    flag ok text row s = if ok then s else bump_bad (ops.trimmed text) row s

    -- `dtNs`
    abbrev pub period_ns : Real → Real
    period_ns rate =
        if ops.is_positive rate then ops.divide (ops.power_of_ten 9) rate else ops.zero_value

    -- One row of the loop with a sample rate: a row that is too short is skipped.
    unfoldable pub read_by_rate : ℕ → ℕ → Real → ℕ → Reading Real → Reading Real
    read_by_rate y_lo y_col rate row st = elim (get_elem? rows row) [
      | none ↦ st
      | some r ↦ elim (get_elem? r y_col) [
        | none ↦ st
        | some y ↦
            let (v, ok) = try_val ops profile.decimal_separator y in
            let t = ops.truncate (ops.multiply (ops.of_ℕ (row - y_lo)) (period_ns rate)) in
            record st { read = push t v st.read; y_bad = flag ok y row st.y_bad }
      ]
    ]

    abbrev time_of : ColumnMapping Real → QString → ℤ × Bool
    time_of x text =
        if is_frequency x.role
        then try_freq_storage ops profile.decimal_separator text x.unit
        else try_ns ops profile.decimal_separator text x.unit

    -- One row of the loop with an X column: a row that is too short, or whose X cell is blank, is
    -- skipped.
    unfoldable pub read_by_column : ColumnMapping Real → ℤ → ℕ → ℕ → Reading Real → Reading Real
    read_by_column x x_col y_col row st = elim (get_elem? rows row) [
      | none ↦ st
      | some r ↦ elim (get_elem? r y_col) [
        | none ↦ st
        | some y ↦ elim (cell_at r x_col) [
          | none ↦ st
          | some c ↦
              let (t, x_ok) = time_of x c in
              let (v, y_ok) = try_val ops profile.decimal_separator y in
              if is_empty (ops.trimmed c) then st else record {
                read = push t v st.read;
                x_bad = flag x_ok c row st.x_bad;
                y_bad = flag y_ok y row st.y_bad;
              }
        ]
      ]
    ]

    -- The rows that an X column and a channel share.
    unfoldable pub shared_range : ColumnMapping Real → ℕ × ℤ → ℕ × ℤ
    shared_range x (y_lo, y_hi) =
        let (x_lo, x_hi) =
          if leb_ℤ (pos 0) x.row_start || leb_ℤ (pos 0) x.row_end
          then resolve_range rows profile x
          else (y_lo, y_hi) in
        (max x_lo y_lo, min_ℤ x_hi y_hi)

    -- The loop of the branch with a sample rate, and that of the branch with an X column.
    unfoldable pub read_rate_channel : ℕ → ℕ × ℤ → Real → Reading Real
    read_rate_channel y_col (y_lo, y_hi) rate =
        read_rows (read_by_rate y_lo y_col rate) y_lo (rows_between y_lo y_hi) (record {
          read = record { ts = []; vs = [] };
          x_bad = no_bad_cells;
          y_bad = no_bad_cells;
        })

    unfoldable pub read_column_channel :
        ℕ → ℕ × ℤ → ColumnMapping Real → ℤ → BadCells → Reading Real
    read_column_channel y_col y_range x x_col x_bad =
        let (lo, hi) = shared_range x y_range in
        read_rows (read_by_column x x_col y_col) lo (rows_between lo hi)
          (record { read = record { ts = []; vs = [] }; x_bad = x_bad; y_bad = no_bad_cells })
