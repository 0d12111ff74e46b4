-- ===== src/Converter/CsvWriter/Lines.antt =====
-- The text of an export (`writeCsv`, converter/src/CsvWriter.cpp): the header and the rows, in both
-- time modes, with the separators as they are put.
pub mod Alignment
pub mod Cells
pub mod Pairs
pub mod Widths
pub mod Splitting
use scope_analyser.Prelude.{
  ℕ, zero, suc, ◌-◌, max, Bool, true, false, not, ◌&&◌, Option, none, some, List, [], ◌∷◌, ◌++◌,
  length, get_elem?, get_or, is_empty, if◌then◌else◌,
}
use scope_analyser.Prelude.Int.{ℤ, ◌-ℤ◌}
use scope_analyser.Prelude.Text.{QString, codes}
use scope_analyser.Core.Types.{Domain, time, frequency}
use scope_analyser.Prelude.Json.{JsonOps}
use scope_analyser.Converter.CsvWriter.{
  Cache, CsvExportOptions, TimeMode, shared, per_signal, NumberOps, fmt_double, linear_interp,
  column_header, shared_x_label, per_sig_x_header, is_freq, time_caches, freq_caches,
  time_origin_ns, time_unit, is_epoch,
}
use scope_analyser.Converter.CsvWriter.Grid.{build_grid}
use scope_analyser.Converter.CsvWriter.Columns.{columns, metadata_line}

-- The text of a line so far, and `firstCol`.
pub record Line : Type 0 where
  pub text : QString
  pub first_col : Bool

abbrev pub new_line : Line
new_line = record { text = []; first_col = true }

abbrev pub put : QString → Line → Line
put t l = record l { text = l.text ++ t }

-- `colSep`
unfoldable pub col_sep : QString → Line → Line
col_sep sep l = record { text = if l.first_col then l.text else l.text ++ sep; first_col = false }

abbrev or_default : QString → QString → QString
or_default [] d = d
or_default (c ∷ r) d = c ∷ r

unfoldable pub sep_of : CsvExportOptions → QString
sep_of opts = or_default opts.column_delimiter (codes ",")

unfoldable pub row_end_of : CsvExportOptions → QString
row_end_of opts = or_default opts.row_delimiter (codes "\n")

unfoldable pub dec_of : CsvExportOptions → QString
dec_of opts = or_default opts.decimal_separator (codes ".")

-- The rows from `r` on, `n` of them.
abbrev pub rows_from : (ℕ → QString) → ℕ → ℕ → List QString
rows_from row zero r = []
rows_from row (suc n) r = row r ∷ rows_from row n (suc r)

module _ {Real : Type 0} where
  abbrev pub is_mixed : List (Cache Real) → List (Cache Real) → Bool
  is_mixed ts fs = not (is_empty ts) && not (is_empty fs)

  unfoldable pub shared_row_count : List (Cache Real) → List (Cache Real) → ℕ
  shared_row_count ts fs = max (length (build_grid ts)) (length (build_grid fs))

  -- `maxN`
  unfoldable pub max_count : List (Cache Real) → ℕ
  max_count [] = 0
  max_count (c ∷ r) = max (length c.timestamps) (max_count r)

module _ {Real : Type 0} (ops : NumberOps Real) (opts : CsvExportOptions) where
  abbrev pub cell_text : Real → QString
  cell_text v = fmt_double ops v (dec_of opts) opts.decimal_digits

  -- `fmtTimeX`, and the X cell of a frequency.
  unfoldable pub fmt_time_x : ℤ → ℤ → QString
  fmt_time_x origin t =
      if is_epoch opts then ops.integer t else cell_text (ops.div (ops.of_ℤ (t -ℤ origin)) ops.giga)

  unfoldable pub fmt_freq_x : ℤ → QString
  fmt_freq_x t = cell_text (ops.div (ops.of_ℤ t) ops.giga)

  unfoldable pub value_at : ℤ → Cache Real → QString
  value_at t c = cell_text (linear_interp ops c.timestamps c.vals (length c.timestamps) t)

  abbrev pub put_headers : List (Cache Real) → Line → Line
  put_headers [] l = l
  put_headers (c ∷ r) l = put_headers r (put (column_header c.signal) (col_sep (sep_of opts) l))

  unfoldable pub header_block : Domain → List (Cache Real) → Line → Line
  header_block d cs l =
      if is_empty cs
      then l
      else put_headers cs (put (shared_x_label d (time_unit opts)) (col_sep (sep_of opts) l))

  unfoldable pub shared_header : List (Cache Real) → List (Cache Real) → QString
  shared_header ts fs =
      (header_block Domain.frequency fs (header_block Domain.time ts new_line)).text

  abbrev pub put_values : ℤ → List (Cache Real) → Line → Line
  put_values t [] l = l
  put_values t (c ∷ r) l = put_values t r (put (value_at t c) (col_sep (sep_of opts) l))

  abbrev pub put_blanks : List (Cache Real) → Line → Line
  put_blanks [] l = l
  put_blanks (c ∷ r) l = put_blanks r (col_sep (sep_of opts) l)

  -- A domain's cells in a row: its row of the grid, or blanks where the other domain has more rows.
  unfoldable pub row_block : Bool → (ℤ → QString) → List ℤ → List (Cache Real) → ℕ → Line → Line
  row_block mixed fmt grid cs r l = if is_empty cs then l else elim (get_elem? grid r) [
    | some t ↦ put_values t cs (put (fmt t) (col_sep (sep_of opts) l))
    | none ↦ if mixed then put_blanks cs (col_sep (sep_of opts) l) else l
  ]

  unfoldable pub shared_row : ℤ → List (Cache Real) → List (Cache Real) → ℕ → QString
  shared_row origin ts fs r =
      let mixed = is_mixed ts fs in
      let l = row_block mixed (fmt_time_x origin) (build_grid ts) ts r new_line in
      (row_block mixed fmt_freq_x (build_grid fs) fs r l).text

  -- The loop over the channels that puts a pair of cells for each.
  unfoldable pub per_signal_line : (Cache Real → QString) → Bool → List (Cache Real) → QString
  per_signal_line pair first [] = []
  per_signal_line pair first (c ∷ r) =
      (if first then [] else sep_of opts) ++ (pair c ++ per_signal_line pair false r)

  abbrev pub header_pair : Cache Real → QString
  header_pair c =
      per_sig_x_header c.signal (time_unit opts) ++ (sep_of opts ++ column_header c.signal)

  abbrev pub x_cell : ℤ → Cache Real → ℤ → QString
  x_cell origin c t = if is_freq c.signal then fmt_freq_x t else fmt_time_x origin t

  -- A row's pair: two empty cells behind the channel's samples.
  abbrev pub row_pair : ℤ → ℕ → Cache Real → QString
  row_pair origin r c = elim (get_elem? c.timestamps r) [
    | some t ↦ x_cell origin c t ++ (sep_of opts ++ cell_text (get_or c.vals r ops.nan))
    | none ↦ sep_of opts
  ]

  abbrev pub header_lines : QString → List QString
  header_lines h = if opts.include_header then h ∷ [] else []

  -- The lines of the table by mode, without their ends.
  abbrev pub table_lines_of : TimeMode → ℤ → List (Cache Real) → List QString
  table_lines_of shared origin cs =
      let ts = time_caches cs in
      let fs = freq_caches cs in
      header_lines (shared_header ts fs)
      ++ rows_from (shared_row origin ts fs) (shared_row_count ts fs) 0
  table_lines_of per_signal origin cs =
      header_lines (per_signal_line header_pair true cs)
      ++ rows_from (λ r. per_signal_line (row_pair origin r) true cs) (max_count cs) 0

  unfoldable pub table_lines : List (Cache Real) → List QString
  table_lines cs = table_lines_of opts.time_mode (time_origin_ns (time_caches cs)) cs

  abbrev ended : List QString → QString
  ended [] = []
  ended (l ∷ r) = l ++ (row_end_of opts ++ ended r)

  abbrev metadata_lines : {Json : Type 0} → JsonOps Real Json → List (Cache Real) → List QString
  metadata_lines json cs =
      if opts.include_metadata
      then metadata_line json opts.layout_json (columns opts cs) ∷ []
      else []

  -- `writeCsv`: the text of the file, unless there is no channel or the file does not open.
  unfoldable pub write_csv :
      {Json : Type 0} → JsonOps Real Json → Bool → List (Cache Real) → Option QString
  write_csv json opens cs =
      if is_empty cs
      then none
      else if opens
      then some (ended (metadata_lines json cs ++ table_lines cs))
      else none
