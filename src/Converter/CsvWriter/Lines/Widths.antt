-- ===== src/Converter/CsvWriter/Lines/Widths.antt =====
-- Every line of an exported table has as many cells as there are columns
-- (converter/src/CsvWriter.cpp).
use scope_analyser.Prelude.{
  ℕ, zero, suc, ◌+◌, ◌*◌, ◌-◌, ◌<◌, ◌≡◌, refl, ap, Bool, true, false, Option-cases, inl, inr, List,
  [], ◌∷◌, ◌++◌, All, All-append, length, length-append, get_elem?, if◌then◌else◌, arith,
}
use scope_analyser.Prelude.Int.{ℤ}
use scope_analyser.Prelude.Text.{QString, codes}
use scope_analyser.Core.Types.{Domain}
use scope_analyser.Converter.CsvWriter.{
  Cache, CsvExportOptions, TimeMode, shared, per_signal, NumberOps, column_header, per_sig_x_header,
  time_caches, freq_caches, time_unit, time_origin_ns,
}
use scope_analyser.Converter.CsvWriter.Columns.{
  columns, columns_of, signal_columns, add_block, per_signal_columns, x_column, ColDesc,
}
use scope_analyser.Converter.CsvWriter.Lines.{
  sep_of, shared_row_count, rows_from, table_lines, table_lines_of, max_count,
}
use scope_analyser.Converter.CsvWriter.Lines.Cells.{
  HasHeaders, HasTexts, All-header_cells, All-row_cells, fmt_time_x_text, fmt_freq_x_text,
  x_cell_text, headers_of_times, headers_of_frequencies,
}
use scope_analyser.Converter.CsvWriter.Lines.Pairs.{
  IsAligned, All-channels, per_signal_line-IsAligned, left_cell, right_cell, row_pair-split,
}
use scope_analyser.Converter.CsvWriter.Lines.Alignment.{
  width, length-header_cells, length-row_cells, shared_header-join, shared_row-join,
}

-- How many columns a table has in a mode.
abbrev mode_width : {Real : Type 0} → TimeMode → List (Cache Real) → ℕ
mode_width shared cs = width (time_caches cs) + width (freq_caches cs)
mode_width per_signal cs = 2 * length cs

length-pair :
    (cols : List ColDesc) (x y : ColDesc) → length ((cols ++ x ∷ []) ++ y ∷ []) ≡ length cols + 2
length-pair cols x y =
    omega (arith, length-append (cols ++ x ∷ []) (y ∷ []), length-append cols (x ∷ []))

lengths :
    (xs ys : List QString) (m n : ℕ) → length xs ≡ m → length ys ≡ n → length (xs ++ ys) ≡ m + n
lengths xs ys m n h k = omega (arith, length-append xs ys)

module _ {Real : Type 0} where
  length-signal_columns :
      (k : ℕ) (cs : List (Cache Real)) → length (signal_columns k cs) ≡ length cs
  length-signal_columns k [] = refl
  length-signal_columns k (c ∷ r) = ap suc (length-signal_columns k r)

  length-add_block :
      (role unit : QString) (cs : List (Cache Real)) (cols : List ColDesc)
      → length (add_block role unit cs cols) ≡ length cols + width cs
  unfolding add_block
  length-add_block role unit [] cols = omega arith
  length-add_block role unit (c ∷ r) cols =
      let with_x = cols ++ x_column role unit ∷ [] in
      omega (
        arith,
        length-append with_x (signal_columns (length with_x - 1) (c ∷ r)),
        length-append cols (x_column role unit ∷ []),
        length-signal_columns (length with_x - 1) (c ∷ r),
      )

  length-per_signal_columns :
      (unit : QString) (cs : List (Cache Real)) (cols : List ColDesc)
      → length (per_signal_columns unit cs cols) ≡ length cols + 2 * length cs
  unfolding per_signal_columns
  length-per_signal_columns unit [] cols = omega arith
  length-per_signal_columns unit (c ∷ r) cols =
      omega (arith, length-per_signal_columns unit r _, length-pair cols _ _)

  length-columns_of :
      (mode : TimeMode) (unit : QString) (cs : List (Cache Real))
      → length (columns_of mode unit cs) ≡ mode_width mode cs
  length-columns_of shared unit cs = omega (
    arith,
    length-add_block (codes "x_frequency") (codes "Hz") (freq_caches cs)
        (add_block (codes "x_time") unit (time_caches cs) []),
    length-add_block (codes "x_time") unit (time_caches cs) [],
  )
  length-columns_of per_signal unit cs = omega (arith, length-per_signal_columns unit cs [])

module _ {Real : Type 0} (ops : NumberOps Real) (opts : CsvExportOptions) where
  All-rows_from :
      (P : QString → Type 0) (row : ℕ → QString) (n r : ℕ)
      → ((k : ℕ) → k < r + n → P (row k))
      → All P (rows_from row n r)
  All-rows_from P row zero r h = tt
  All-rows_from P row (suc n) r h =
      (h r (omega arith), All-rows_from P row n (suc r) (λ k b. h k (omega (arith, b))))

  All-header_lines :
      (P : QString → Type 0) (b : Bool) (h : QString) (rows : List QString)
      → P h
      → All P rows
      → All P ((if b then h ∷ [] else []) ++ rows)
  All-header_lines P true h rows p q = (p, q)
  All-header_lines P false h rows p q = q

  module _ (P : QString → Type 0) (cs : List (Cache Real)) (texts : HasTexts ops opts P cs) where
    swapped :
        (xs : List (Cache Real))
        → HasHeaders ops opts P xs
        → All (λ c. P (per_sig_x_header c.signal (time_unit opts)) × P (column_header c.signal)) xs
    swapped [] h = tt
    swapped (c ∷ r) h = ((h.0.1, h.0.0), swapped r h.1)

    left_cell_text : (origin : ℤ) (k : ℕ) (c : Cache Real) → P (left_cell ops opts origin k c)
    left_cell_text origin k c = elim (Option-cases (get_elem? c.timestamps k)) [
      | inl e ↦ rw (e, left_cell) texts.blank
      | inr (t, e) ↦ rw (e, left_cell) (x_cell_text ops opts P cs texts origin c t)
    ]

    right_cell_text : (k : ℕ) (c : Cache Real) → P (right_cell ops opts k c)
    right_cell_text k c = elim (Option-cases (get_elem? c.timestamps k)) [
      | inl e ↦ rw (e, right_cell) texts.blank
      | inr (t, e) ↦ rw (e, right_cell) (texts.number _)
    ]

    table_lines_of-IsAligned :
        (mode : TimeMode) (origin : ℤ)
        → All
            (IsAligned P (sep_of opts) (mode_width mode cs))
            (table_lines_of ops opts mode origin cs)
    table_lines_of-IsAligned shared origin =
        let ts = time_caches cs in
        let fs = freq_caches cs in
        let times = headers_of_times ops opts P cs texts in
        let frequencies = headers_of_frequencies ops opts P cs texts in
        All-header_lines _ opts.include_header _ _
          (
            _,
            shared_header-join ops opts ts fs,
            lengths _ _ _ _ (length-header_cells ops opts Domain.time ts)
                (length-header_cells ops opts Domain.frequency fs),
            All-append P _ _ (All-header_cells ops opts P cs texts Domain.time ts times)
                (All-header_cells ops opts P cs texts Domain.frequency fs frequencies),
          )
          (All-rows_from _ _ (shared_row_count ts fs) 0 (λ k b. (
            _,
            shared_row-join ops opts origin ts fs k (omega (arith, b)),
            lengths _ _ _ _ (length-row_cells ops opts _ ts k) (length-row_cells ops opts _ fs k),
            All-append P _ _
                (All-row_cells ops opts P cs texts _ ts k
                  (fmt_time_x_text ops opts P cs texts origin))
                (All-row_cells ops opts P cs texts _ fs k (fmt_freq_x_text ops opts P cs texts)),
          )))
    table_lines_of-IsAligned per_signal origin =
        All-header_lines _ opts.include_header _ _
          (per_signal_line-IsAligned ops opts P _ (λ c. per_sig_x_header c.signal (time_unit opts))
            (λ c. column_header c.signal) (λ c. refl) cs (swapped cs texts.headers))
          (All-rows_from _ _ (max_count cs) 0 (λ k b.
            per_signal_line-IsAligned ops opts P _ (left_cell ops opts origin k)
              (right_cell ops opts k) (row_pair-split ops opts origin k) cs
              (All-channels _ cs (λ c. (left_cell_text origin k c, right_cell_text k c)))))

    -- Each line of the table consists of as many cells as there are columns.
    pub table_lines-IsAligned :
        All (IsAligned P (sep_of opts) (length (columns opts cs))) (table_lines ops opts cs)
    unfolding table_lines columns
    table_lines-IsAligned =
        rw (length-columns_of opts.time_mode (time_unit opts) cs)
          (table_lines_of-IsAligned opts.time_mode (time_origin_ns (time_caches cs)))
