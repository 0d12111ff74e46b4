-- ===== src/Converter/CsvSource.antt =====
-- The reader of CSV files (`CsvSource`, converter/src/CsvSource.cpp). The text stream is the list of
-- the lines that it returns, with how many are left for its `atEnd`; the cutting of a text at a
-- delimiter of any length and the trimming are Qt's.
pub mod Quoting
use scope_analyser.Prelude.{
  ℕ, Bool, true, false, ◌&&◌, List, [], ◌∷◌, ◌++◌, ◌==◌, is_empty, if◌then◌else◌, ◌||◌,
}
use scope_analyser.Prelude.Text.{QString, codes, eq_text}
use scope_analyser.Converter.TabularSource.{Rows}

-- A double quote.
abbrev pub quote : ℕ
quote = 34

-- The loop of `splitCsv` from one character on: whether it is inside quotes, and the cell so far.
unfoldable pub scan : ℕ → Bool → QString → QString → List QString
scan delim in_quotes cur [] = cur ∷ []
scan delim true cur (c ∷ []) = elim (c == quote) [
  | true ↦ scan delim false cur []
  | false ↦ scan delim true (cur ++ c ∷ []) []
]
scan delim true cur (c ∷ next ∷ r) = elim (c == quote) [
  | true ↦ elim (next == quote) [
    | true ↦ scan delim true (cur ++ quote ∷ []) r
    | false ↦ scan delim false cur (next ∷ r)
  ]
  | false ↦ scan delim true (cur ++ c ∷ []) (next ∷ r)
]
scan delim false cur (c ∷ r) = elim (c == delim) [
  | true ↦ cur ∷ scan delim false [] r
  | false ↦ elim (c == quote) [
    | true ↦ scan delim true cur r
    | false ↦ scan delim false (cur ++ c ∷ []) r
  ]
]

-- `splitCsv`
unfoldable pub split_csv : QString → ℕ → List QString
split_csv line delim = scan delim false [] line

abbrev starts_with_hash : QString → Bool
starts_with_hash [] = false
starts_with_hash (c ∷ _) = c == 35

abbrev first_or : ℕ → QString → ℕ
first_or d [] = d
first_or d (c ∷ _) = c

module _ (trimmed : QString → QString) where
  -- `isComment`
  unfoldable pub is_comment : QString → Bool
  is_comment s = starts_with_hash (trimmed s)

  -- The rows of the parts that are no comments.
  unfoldable pub rows_of_parts : ℕ → List QString → Rows
  rows_of_parts delim [] = []
  rows_of_parts delim (p ∷ r) =
      let rest = rows_of_parts delim r in if is_comment p then rest else split_csv p delim ∷ rest

  -- The loop over the lines: an empty line at the end of the stream ends it.
  unfoldable pub rows_of_lines : ℕ → List QString → Rows
  rows_of_lines delim [] = []
  rows_of_lines delim (l ∷ r) =
      let rest = rows_of_lines delim r in
      if is_empty l && is_empty r
      then []
      else if is_comment l
      then rest
      else split_csv l delim ∷ rest

  module _ (read_lines : QString → List QString) (split : QString → QString → List QString) where
    -- The constructor, from the text of the file on.
    unfoldable pub load : QString → QString → QString → Rows
    load column_delimiter row_delimiter content =
        let col_char = first_or 44 column_delimiter in
        if eq_text row_delimiter (codes "\n") || eq_text row_delimiter (codes "\r\n")
        then rows_of_lines col_char (read_lines content)
        else rows_of_parts col_char (split content row_delimiter)
