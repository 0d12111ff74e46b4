-- ===== src/Converter/CsvSource/Quoting.antt =====
-- Cells written to a line come back from `splitCsv` (converter/src/CsvSource.cpp).
use scope_analyser.Prelude.{
  ℕ, ◌≡◌, ◌≢◌, refl, ap, ◌∙◌, Bool, true, false, not, List, [], ◌∷◌, ◌++◌, ◌==◌, map, All, arith,
  append-nil, append_assoc, Bool-cases, inl, inr, if◌then◌else◌,
}
use scope_analyser.Prelude.Text.{QString, join}
use scope_analyser.Converter.CsvSource.{quote, scan, split_csv}

-- The usual way to write a cell: each quote twice, and quotes around the cell.
unfoldable pub escape : QString → QString
escape [] = []
escape (c ∷ r) = let rest = escape r in if c == quote then quote ∷ quote ∷ rest else c ∷ rest

-- A cell, and whether it is written in quotes.
unfoldable pub written : QString × Bool → QString
written (cell, true) = quote ∷ (escape cell ++ quote ∷ [])
written (cell, false) = cell

abbrev pub Plain : ℕ → QString → Type 0
Plain delim cell = All (λ c. (c ≢ delim) × (c ≢ quote)) cell

-- A cell out of quotes has no delimiter and no quote.
abbrev pub IsWritable : ℕ → QString × Bool → Type 0
IsWritable delim (cell, true) = Unit
IsWritable delim (cell, false) = Plain delim cell

abbrev pub cell_of : QString × Bool → QString
cell_of (cell, _) = cell

abbrev no_quote : QString → Bool
no_quote [] = true
no_quote (c ∷ _) = not (c == quote)

snoc : (cur : QString) (c : ℕ) (r : QString) → (cur ++ c ∷ []) ++ r ≡ cur ++ (c ∷ r)
snoc cur c r = append_assoc cur (c ∷ []) r

scan-Plain :
    (delim : ℕ) (cur cell rest : QString)
    → Plain delim cell
    → scan delim false cur (cell ++ rest) ≡ scan delim false (cur ++ cell) rest
unfolding scan
scan-Plain delim cur [] rest h = rw (append-nil cur) refl
scan-Plain delim cur (c ∷ r) rest h =
    ground (arith, scan-Plain delim (cur ++ c ∷ []) r rest h.1, snoc cur c r)

scan-closing :
    (delim : ℕ) (cur rest : QString)
    → no_quote rest ≡ true
    → scan delim true cur (quote ∷ rest) ≡ scan delim false cur rest
unfolding scan
scan-closing delim cur [] h = refl
scan-closing delim cur (c ∷ r) h = ground arith

scan-inside :
    (delim : ℕ) (cur : QString) (c : ℕ) (rest : QString)
    → (c == quote) ≡ false
    → scan delim true cur (c ∷ rest) ≡ scan delim true (cur ++ c ∷ []) rest
unfolding scan
scan-inside delim cur c [] h = ground arith
scan-inside delim cur c (x ∷ r) h = ground arith

scan-doubled :
    (delim : ℕ) (cur rest : QString)
    → scan delim true cur (quote ∷ quote ∷ rest) ≡ scan delim true (cur ++ quote ∷ []) rest
unfolding scan
scan-doubled delim cur rest = refl

scan-escape :
    (delim : ℕ) (cur cell rest : QString)
    → no_quote rest ≡ true
    → scan delim true cur (escape cell ++ quote ∷ rest) ≡ scan delim false (cur ++ cell) rest
unfolding escape
scan-escape delim cur [] rest h = rw (append-nil cur) (scan-closing delim cur rest h)
scan-escape delim cur (c ∷ r) rest h = elim (Bool-cases (c == quote)) [
  | inl e ↦
      let same : c ≡ quote = ground arith in
      rw (e, scan-doubled delim cur, scan-escape delim (cur ++ quote ∷ []) r rest h, same, snoc cur)
        refl
  | inr e ↦
      rw
        (
          e,
          scan-inside delim cur c (escape r ++ quote ∷ rest) e,
          scan-escape delim (cur ++ c ∷ []) r rest h,
          snoc cur,
        )
        refl
]

scan-opening :
    (delim : ℕ) (rest : QString)
    → quote ≢ delim
    → scan delim false [] (quote ∷ rest) ≡ scan delim true [] rest
unfolding scan
scan-opening delim rest h = ground arith

scan-written :
    (delim : ℕ) (cell : QString × Bool) (rest : QString)
    → quote ≢ delim
    → IsWritable delim cell
    → no_quote rest ≡ true
    → scan delim false [] (written cell ++ rest) ≡ scan delim false (cell_of cell) rest
unfolding written
scan-written delim (cell, false) rest h w e = scan-Plain delim [] cell rest w
scan-written delim (cell, true) rest h w e =
    rw (scan-opening delim, append_assoc (escape cell)) (scan-escape delim [] cell rest e)

scan-end : (delim : ℕ) (cur : QString) → scan delim false cur [] ≡ cur ∷ []
unfolding scan
scan-end delim cur = refl

scan-delim :
    (delim : ℕ) (cur rest : QString)
    → scan delim false cur (delim ∷ rest) ≡ cur ∷ scan delim false [] rest
unfolding scan
scan-delim delim cur rest = ground arith

-- Where the delimiter is no quote: a line of one cell or more, each written out of quotes if it has
-- no delimiter and no quote, or in quotes with its quotes doubled, splits into those cells.
pub split_csv-join :
    (delim : ℕ) (cell : QString × Bool) (cells : List (QString × Bool))
    → quote ≢ delim
    → All (IsWritable delim) (cell ∷ cells)
    → split_csv (join (delim ∷ []) (map written (cell ∷ cells))) delim ≡ map cell_of (cell ∷ cells)
unfolding split_csv join
split_csv-join delim cell [] h w =
    rw (← append-nil (written cell)) (scan-written delim cell [] h w.0 refl ∙ scan-end delim _)
split_csv-join delim cell (next ∷ r) h w =
    scan-written delim cell (delim ∷ join (delim ∷ []) (map written (next ∷ r))) h w.0
      (ground arith)
    ∙ scan-delim delim (cell_of cell) _
    ∙ ap (cell_of cell ∷◌) (split_csv-join delim next r h w.1)
