-- ===== src/Converter/TabularSource/Reading/Lengths.antt =====
-- The loops over the rows of a channel leave its two vectors equally long
-- (converter/src/TabularSource.cpp).
use scope_analyser.Prelude.{
  ℕ, zero, suc, ◌≡◌, refl, Option-cases, Bool-cases, inl, inr, [], ◌∷◌, length, length-append,
  get_elem?, is_empty, arith,
}
use scope_analyser.Prelude.Int.{ℤ}
use scope_analyser.Converter.TabularSource.{ColumnMapping, ConverterProfile, Rows}
use scope_analyser.Converter.TabularSource.Cells.{CellOps}
use scope_analyser.Converter.TabularSource.Vectors.{Vectors}
use scope_analyser.Converter.TabularSource.Reading.{
  BadCells, Reading, push, cell_at, read_rows, read_by_rate, read_by_column, shared_range,
  read_rate_channel, read_column_channel,
}

abbrev pub IsPaired : {Real : Type 0} → Vectors Real → Type 0
IsPaired v = length v.ts ≡ length v.vs

module _ {Real : Type 0} where
  push-IsPaired :
      (t : ℤ) (v : Real) (read : Vectors Real) → IsPaired read → IsPaired (push t v read)
  push-IsPaired t v read h =
      omega (arith, h, length-append read.ts (t ∷ []), length-append read.vs (v ∷ []))

  read_rows-IsPaired :
      (body : ℕ → Reading Real → Reading Real)
      → ((row : ℕ) (st : Reading Real) → IsPaired st.read → IsPaired (body row st).read)
      → (row n : ℕ) (st : Reading Real) → IsPaired st.read
      → IsPaired (read_rows body row n st).read
  unfolding read_rows
  read_rows-IsPaired body keeps row zero st h = h
  read_rows-IsPaired body keeps row (suc n) st h =
      read_rows-IsPaired body keeps (suc row) n (body row st) (keeps row st h)

  module _ (ops : CellOps Real) (profile : ConverterProfile Real) (rows : Rows) where
    read_by_rate-IsPaired :
        (y_lo y_col : ℕ) (rate : Real) (row : ℕ) (st : Reading Real)
        → IsPaired st.read
        → IsPaired (read_by_rate ops profile rows y_lo y_col rate row st).read
    unfolding read_by_rate
    read_by_rate-IsPaired y_lo y_col rate row st h = elim (Option-cases (get_elem? rows row)) [
      | inl e ↦ rw (e, read_by_rate) h
      | inr (r, e) ↦ elim (Option-cases (get_elem? r y_col)) [
        | inl e2 ↦ rw (e, read_by_rate, e2) h
        | inr (y, e2) ↦ rw (e, read_by_rate, e2) (push-IsPaired _ _ st.read h)
      ]
    ]

    read_by_column-IsPaired :
        (x : ColumnMapping Real) (x_col : ℤ) (y_col row : ℕ) (st : Reading Real)
        → IsPaired st.read
        → IsPaired (read_by_column ops profile rows x x_col y_col row st).read
    unfolding read_by_column
    read_by_column-IsPaired x x_col y_col row st h = elim (Option-cases (get_elem? rows row)) [
      | inl e ↦ rw (e, read_by_column) h
      | inr (r, e) ↦ elim (Option-cases (get_elem? r y_col)) [
        | inl e2 ↦ rw (e, read_by_column, e2) h
        | inr (y, e2) ↦ elim (Option-cases (cell_at r x_col)) [
          | inl e3 ↦ rw (e, read_by_column, e2, e3) h
          | inr (c, e3) ↦ elim (Bool-cases (is_empty (ops.trimmed c))) [
            | inl e4 ↦ rw (e, read_by_column, e2, e3, e4) h
            | inr e4 ↦ rw (e, read_by_column, e2, e3, e4) (push-IsPaired _ _ st.read h)
          ]
        ]
      ]
    ]

    pub read_rate_channel-IsPaired :
        (y_col : ℕ) (range : ℕ × ℤ) (rate : Real)
        → IsPaired (read_rate_channel ops profile rows y_col range rate).read
    unfolding read_rate_channel
    read_rate_channel-IsPaired y_col (lo, hi) rate =
        read_rows-IsPaired _ (read_by_rate-IsPaired lo y_col rate) lo _ _ refl

    pub read_column_channel-IsPaired :
        (y_col : ℕ) (range : ℕ × ℤ) (x : ColumnMapping Real) (x_col : ℤ) (x_bad : BadCells)
        → IsPaired (read_column_channel ops profile rows y_col range x x_col x_bad).read
    unfolding read_column_channel
    read_column_channel-IsPaired y_col range x x_col x_bad =
        let (lo, hi) = shared_range ops profile rows x range in
        read_rows-IsPaired _ (read_by_column-IsPaired x x_col y_col) lo _ _ refl
