-- ===== src/Converter/CsvWriter/Lines/Splitting.antt =====
-- The lines of an exported table (converter/src/CsvWriter.cpp), cut into cells as the reader of CSV
-- files does (converter/src/CsvSource.cpp).
use mathlib.Core.Path.{subst}
use scope_analyser.Prelude.{
  ℕ, suc, ◌≡◌, ◌≢◌, refl, ap, sym, ◌∙◌, Bool, false, List, [], ◌∷◌, map, All, length, is_empty,
}
use scope_analyser.Prelude.Text.{QString, join}
use scope_analyser.Converter.CsvSource.{quote, split_csv}
use scope_analyser.Converter.CsvSource.Quoting.{Plain, IsWritable, written, cell_of, split_csv-join}
use scope_analyser.Converter.CsvWriter.{Cache, CsvExportOptions, NumberOps}
use scope_analyser.Converter.CsvWriter.Columns.{columns}
use scope_analyser.Converter.CsvWriter.Lines.{sep_of, table_lines}
use scope_analyser.Converter.CsvWriter.Lines.Cells.{HasTexts}
use scope_analyser.Converter.CsvWriter.Lines.Pairs.{IsAligned}
use scope_analyser.Converter.CsvWriter.Lines.Widths.{table_lines-IsAligned}

-- A cell that is written out of quotes.
abbrev bare : List QString → List (QString × Bool)
bare [] = []
bare (c ∷ r) = (c, false) ∷ bare r

written-bare : (cells : List QString) → map written (bare cells) ≡ cells
unfolding written
written-bare [] = refl
written-bare (c ∷ r) = ap (c ∷◌) (written-bare r)

cell_of-bare : (cells : List QString) → map cell_of (bare cells) ≡ cells
cell_of-bare [] = refl
cell_of-bare (c ∷ r) = ap (c ∷◌) (cell_of-bare r)

bare-IsWritable :
    (delim : ℕ) (cells : List QString)
    → All (Plain delim) cells
    → All (IsWritable delim) (bare cells)
bare-IsWritable delim [] h = tt
bare-IsWritable delim (c ∷ r) h = (h.0, bare-IsWritable delim r h.1)

-- Cells without delimiters and quotes are split again.
split_csv-bare :
    (delim : ℕ) (c : QString) (r : List QString)
    → quote ≢ delim
    → All (Plain delim) (c ∷ r)
    → split_csv (join (delim ∷ []) (c ∷ r)) delim ≡ c ∷ r
split_csv-bare delim c r h plain =
    ap (λ l. split_csv (join (delim ∷ []) l) delim) (sym (written-bare (c ∷ r)))
    ∙ split_csv-join delim (c, false) (bare r) h (bare-IsWritable delim (c ∷ r) plain)
    ∙ cell_of-bare (c ∷ r)

split_csv-IsAligned :
    (delim n : ℕ) (line : QString)
    → quote ≢ delim
    → IsAligned (Plain delim) (delim ∷ []) (suc n) line
    → length (split_csv line delim) ≡ suc n
split_csv-IsAligned delim n line h ([], joined, count, plain) = cc
split_csv-IsAligned delim n line h (c ∷ r, joined, count, plain) =
    ap (λ l. length (split_csv l delim)) joined
    ∙ ap length (split_csv-bare delim c r h plain)
    ∙ count

All-split_csv :
    (delim n : ℕ) (lines : List QString)
    → quote ≢ delim
    → All (IsAligned (Plain delim) (delim ∷ []) (suc n)) lines
    → All (λ line. length (split_csv line delim) ≡ suc n) lines
All-split_csv delim n [] h a = tt
All-split_csv delim n (line ∷ r) h a =
    (split_csv-IsAligned delim n line h a.0, All-split_csv delim n r h a.1)

-- The same for a number that is given otherwise.
All-split_csv_pos :
    (delim : ℕ) {A : Type 0} (cols : List A) (lines : List QString)
    → quote ≢ delim
    → is_empty cols ≡ false
    → All (IsAligned (Plain delim) (delim ∷ []) (length cols)) lines
    → All (λ line. length (split_csv line delim) ≡ length cols) lines
All-split_csv_pos delim [] lines h e a = cc
All-split_csv_pos delim (c ∷ r) lines h e a = All-split_csv delim (length r) lines h a

module _ {Real : Type 0} (ops : NumberOps Real) (opts : CsvExportOptions) where
  -- Where the column delimiter is one character and no quote, the table has a column, and no text of
  -- a number or of a header has a delimiter or a quote: each line of the table, the header and the
  -- rows, in both modes, is split by the reader of CSV files into as many cells as there are
  -- columns.
  pub table_lines-split_csv :
      (delim : ℕ) (cs : List (Cache Real))
      → sep_of opts ≡ delim ∷ []
      → quote ≢ delim
      → HasTexts ops opts (Plain delim) cs
      → is_empty (columns opts cs) ≡ false
      → All
          (λ line. length (split_csv line delim) ≡ length (columns opts cs))
          (table_lines ops opts cs)
  table_lines-split_csv delim cs one h texts some_columns =
      All-split_csv_pos delim (columns opts cs) (table_lines ops opts cs) h some_columns (
        subst
          (λ s.
            All (IsAligned (Plain delim) s (length (columns opts cs))) (table_lines ops opts cs))
          one (table_lines-IsAligned ops opts (Plain delim) cs texts))
