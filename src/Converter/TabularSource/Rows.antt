-- ===== src/Converter/TabularSource/Rows.antt =====
-- The rows that a channel reads lie in the grid (converter/src/TabularSource.cpp).
use scope_analyser.Prelude.{ℕ, ◌<◌, ◌≡◌, arith, true, some, List, length, get_elem?, get_elem?_lt}
use scope_analyser.Prelude.Int.{pos, leb_ℤ, ◌-ℤ◌}
use scope_analyser.Prelude.Text.{QString}
use scope_analyser.Converter.TabularSource.{
  ColumnMapping, ConverterProfile, Rows, row_count, resolve_range,
}

module _ {Real : Type 0} (rows : Rows) (profile : ConverterProfile Real)
    (m : ColumnMapping Real) where
  in_range : (row : ℕ) → leb_ℤ (pos row) (resolve_range rows profile m).1 ≡ true → row < length rows
  unfolding resolve_range row_count ◌-ℤ◌
  in_range row h = ground arith

  -- Whatever rows a mapping asks for: every row number up to the last row of its resolved range is a
  -- row of the grid.
  pub resolve_range-get_elem? :
      (row : ℕ)
      → leb_ℤ (pos row) (resolve_range rows profile m).1 ≡ true
      → (r : List QString) × (get_elem? rows row ≡ some r)
  resolve_range-get_elem? row high = get_elem?_lt rows row (in_range row high)
