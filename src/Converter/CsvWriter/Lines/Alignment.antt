-- ===== src/Converter/CsvWriter/Lines/Alignment.antt =====
-- Every line of an exported table has a cell for each column (converter/src/CsvWriter.cpp).
use scope_analyser.Prelude.{
  ℕ, suc, ◌<◌, ◌≡◌, refl, ap, sym, ◌∙◌, Bool, true, Option, none, some, Option-cases, inl, inr, ◌⊎◌,
  List, [], ◌∷◌, ◌++◌, length, get_elem?, get_elem?_lt, is_empty, append-nil, append_assoc,
  if◌then◌else◌, arith,
}
use scope_analyser.Prelude.Int.{ℤ}
use scope_analyser.Prelude.Text.{QString, join}
use scope_analyser.Core.Types.{Domain}
use scope_analyser.Converter.CsvWriter.{
  Cache, CsvExportOptions, NumberOps, column_header, shared_x_label, time_unit,
}
use scope_analyser.Converter.CsvWriter.Grid.{build_grid, insert_channels}
use scope_analyser.Converter.CsvWriter.Lines.{
  Line, new_line, put, col_sep, sep_of, fmt_time_x, fmt_freq_x, value_at, put_headers, header_block,
  shared_header, put_values, put_blanks, row_block, is_mixed, shared_row, shared_row_count,
}

-- The line has these cells, with separators between them.
record HasCells (sep : QString) (cells : List QString) (l : Line) : Type 0 where
  joined : l.text ≡ join sep cells
  fresh : l.first_col ≡ is_empty cells

join-snoc :
    (sep : QString) (x : QString) (cells : List QString) (t : QString)
    → join sep ((x ∷ cells) ++ t ∷ []) ≡ join sep (x ∷ cells) ++ (sep ++ t)
unfolding join
join-snoc sep x [] t = refl
join-snoc sep x (y ∷ r) t =
    ap (λ (rest : QString). x ++ (sep ++ rest)) (join-snoc sep y r t) ∙ simp append_assoc refl

put-HasCells :
    (sep : QString) (cells : List QString) (t : QString) (l : Line)
    → HasCells sep cells l
    → HasCells sep (cells ++ t ∷ []) (put t (col_sep sep l))
unfolding col_sep join
put-HasCells sep [] t l h = record {
  joined =
      ap (λ (b : Bool). (if b then l.text else l.text ++ sep) ++ t) h.fresh ∙ ap (◌++ t) h.joined;
  fresh = refl;
}
put-HasCells sep (x ∷ cells) t l h = record {
  joined =
      ap (λ (b : Bool). (if b then l.text else l.text ++ sep) ++ t) h.fresh
      ∙ ap (λ (s : QString). (s ++ sep) ++ t) h.joined
      ∙ append_assoc _ sep t
      ∙ sym (join-snoc sep x cells t);
  fresh = refl;
}

snoc : {A : Type 0} (xs : List A) (x : A) (ys : List A) → (xs ++ x ∷ []) ++ ys ≡ xs ++ x ∷ ys
snoc xs x ys = append_assoc xs (x ∷ []) ys

col_sep-HasCells :
    (sep : QString) (cells : List QString) (l : Line)
    → HasCells sep cells l
    → HasCells sep (cells ++ [] ∷ []) (col_sep sep l)
col_sep-HasCells sep cells l h =
    let put_nil : put [] (col_sep sep l) ≡ col_sep sep l = λ i. record {
      text = append-nil (col_sep sep l).text i;
      first_col = (col_sep sep l).first_col;
    } in
    rw (← put_nil) (put-HasCells sep cells [] l h)

-- The grid has this row, or the other domain does.
abbrev HasRow : Bool → List ℤ → ℕ → Type 0
HasRow mixed grid r = (r < length grid) ⊎ (mixed ≡ true)

has_row :
    (grid : List ℤ) (r : ℕ) (mixed : Bool)
    → get_elem? grid r ≡ none
    → HasRow mixed grid r
    → mixed ≡ true
has_row grid r mixed e (inl h) = let (t, found) = get_elem?_lt grid r h in cc
has_row grid r mixed e (inr m) = m

-- Each domain has no channel, or has this row, or both have channels.
grid_rows :
    {Real : Type 0} (ts fs : List (Cache Real)) (r : ℕ)
    → r < shared_row_count ts fs
    → ((is_empty ts ≡ true) ⊎ HasRow (is_mixed ts fs) (build_grid ts) r)
      × ((is_empty fs ≡ true) ⊎ HasRow (is_mixed ts fs) (build_grid fs) r)
unfolding shared_row_count build_grid insert_channels
grid_rows [] [] r h = absurd (omega (arith, h))
grid_rows [] (f ∷ fs) r h = (inl refl, inr (inl (omega (arith, h))))
grid_rows (t ∷ ts) [] r h = (inr (inl (omega (arith, h))), inl refl)
grid_rows (t ∷ ts) (f ∷ fs) r h = (inr (inr refl), inr (inr refl))

empty_line : (sep : QString) → HasCells sep [] new_line
unfolding join
empty_line sep = record { joined = refl; fresh = refl }

-- An X cell and one for each channel, or no cell.
abbrev pub width : {Real : Type 0} → List (Cache Real) → ℕ
width [] = 0
width (c ∷ r) = suc (length (c ∷ r))

module _ {Real : Type 0} (ops : NumberOps Real) (opts : CsvExportOptions) where
  abbrev pub names : List (Cache Real) → List QString
  names [] = []
  names (c ∷ r) = column_header c.signal ∷ names r

  abbrev pub values : ℤ → List (Cache Real) → List QString
  values t [] = []
  values t (c ∷ r) = value_at ops opts t c ∷ values t r

  abbrev pub blanks : List (Cache Real) → List QString
  blanks [] = []
  blanks (_ ∷ r) = [] ∷ blanks r

  put_headers-HasCells :
      (cs : List (Cache Real)) (cells : List QString) (l : Line)
      → HasCells (sep_of opts) cells l
      → HasCells (sep_of opts) (cells ++ names cs) (put_headers ops opts cs l)
  put_headers-HasCells [] cells l h = rw (append-nil cells) h
  put_headers-HasCells (c ∷ r) cells l h =
      rw (← snoc cells (column_header c.signal) (names r))
        (put_headers-HasCells r _ _ (put-HasCells _ cells (column_header c.signal) l h))

  put_values-HasCells :
      (t : ℤ) (cs : List (Cache Real)) (cells : List QString) (l : Line)
      → HasCells (sep_of opts) cells l
      → HasCells (sep_of opts) (cells ++ values t cs) (put_values ops opts t cs l)
  put_values-HasCells t [] cells l h = rw (append-nil cells) h
  put_values-HasCells t (c ∷ r) cells l h =
      rw (← snoc cells (value_at ops opts t c) (values t r))
        (put_values-HasCells t r _ _ (put-HasCells _ cells (value_at ops opts t c) l h))

  put_blanks-HasCells :
      (cs : List (Cache Real)) (cells : List QString) (l : Line)
      → HasCells (sep_of opts) cells l
      → HasCells (sep_of opts) (cells ++ blanks cs) (put_blanks ops opts cs l)
  put_blanks-HasCells [] cells l h = rw (append-nil cells) h
  put_blanks-HasCells (c ∷ r) cells l h =
      rw (← snoc cells [] (blanks r)) (put_blanks-HasCells r _ _ (col_sep-HasCells _ cells l h))

  -- The cells of a domain in the header and in a row: its X cell and those of its channels, blank in
  -- a row that its grid does not have, and none for a domain with no channel.
  abbrev pub header_cells : Domain → List (Cache Real) → List QString
  header_cells d [] = []
  header_cells d (c ∷ r) = shared_x_label d (time_unit opts) ∷ names (c ∷ r)

  abbrev pub cells_at : (ℤ → QString) → List (Cache Real) → Option ℤ → List QString
  cells_at fmt cs none = [] ∷ blanks cs
  cells_at fmt cs (some t) = fmt t ∷ values t cs

  unfoldable pub row_cells : (ℤ → QString) → List (Cache Real) → ℕ → List QString
  row_cells fmt cs r = if is_empty cs then [] else cells_at fmt cs (get_elem? (build_grid cs) r)

  header_block-HasCells :
      (d : Domain) (cs : List (Cache Real)) (cells : List QString) (l : Line)
      → HasCells (sep_of opts) cells l
      → HasCells (sep_of opts) (cells ++ header_cells d cs) (header_block ops opts d cs l)
  unfolding header_block
  header_block-HasCells d [] cells l h = rw (append-nil cells) h
  header_block-HasCells d (c ∷ r) cells l h =
      let x = shared_x_label d (time_unit opts) in
      rw (← snoc cells x (names (c ∷ r)))
        (put_headers-HasCells (c ∷ r) _ _ (put-HasCells _ cells x l h))

  row_block-HasCells :
      (mixed : Bool) (fmt : ℤ → QString) (cs : List (Cache Real)) (r : ℕ) (cells : List QString)
      (l : Line)
      → ((is_empty cs ≡ true) ⊎ HasRow mixed (build_grid cs) r)
      → HasCells (sep_of opts) cells l
      → HasCells
          (sep_of opts)
          (cells ++ row_cells fmt cs r)
          (row_block ops opts mixed fmt (build_grid cs) cs r l)
  unfolding row_block row_cells
  row_block-HasCells mixed fmt [] r cells l ok h = rw (append-nil cells) h
  row_block-HasCells mixed fmt (c ∷ cs) r cells l (inl e) h = cc
  row_block-HasCells mixed fmt (c ∷ cs) r cells l (inr ok) h =
      elim (Option-cases (get_elem? (build_grid (c ∷ cs)) r)) [
        | inl e ↦
            let m : mixed ≡ true = has_row (build_grid (c ∷ cs)) r mixed e ok in
            rw (e, m, ← snoc cells [] (blanks (c ∷ cs)))
              (put_blanks-HasCells (c ∷ cs) _ _ (col_sep-HasCells _ cells l h))
        | inr (t, e) ↦
            rw (e, ← snoc cells (fmt t) (values t (c ∷ cs)))
              (put_values-HasCells t (c ∷ cs) _ _ (put-HasCells _ cells (fmt t) l h))
      ]

  -- Each row of a shared table, below the number of its rows, is the cells of the time channels and
  -- those of the frequency channels, with separators between them: the row of each domain's grid, or
  -- blanks where the domain has fewer rows.
  pub shared_row-join :
      (origin : ℤ) (ts fs : List (Cache Real)) (r : ℕ)
      → r < shared_row_count ts fs
      → shared_row ops opts origin ts fs r
        ≡ join
            (sep_of opts)
            (row_cells (fmt_time_x ops opts origin) ts r ++ row_cells (fmt_freq_x ops opts) fs r)
  unfolding shared_row shared_row_count
  shared_row-join origin ts fs r h =
      (row_block-HasCells (is_mixed ts fs) (fmt_freq_x ops opts) fs r _ _ (grid_rows ts fs r h).1 (
        row_block-HasCells (is_mixed ts fs) (fmt_time_x ops opts origin) ts r [] new_line
          (grid_rows ts fs r h).0 (empty_line (sep_of opts)))).joined

  -- The header of a shared table.
  pub shared_header-join :
      (ts fs : List (Cache Real))
      → shared_header ops opts ts fs
        ≡ join (sep_of opts) (header_cells Domain.time ts ++ header_cells Domain.frequency fs)
  unfolding shared_header
  shared_header-join ts fs =
      (header_block-HasCells Domain.frequency fs _ _
        (header_block-HasCells Domain.time ts [] new_line (empty_line (sep_of opts)))).joined

  length-values : (t : ℤ) (cs : List (Cache Real)) → length (values t cs) ≡ length cs
  length-values t [] = refl
  length-values t (c ∷ r) = ap suc (length-values t r)

  length-blanks : (cs : List (Cache Real)) → length (blanks cs) ≡ length cs
  length-blanks [] = refl
  length-blanks (c ∷ r) = ap suc (length-blanks r)

  length-names : (cs : List (Cache Real)) → length (names cs) ≡ length cs
  length-names [] = refl
  length-names (c ∷ r) = ap suc (length-names r)

  length-cells_at :
      (fmt : ℤ → QString) (cs : List (Cache Real)) (o : Option ℤ)
      → length (cells_at fmt cs o) ≡ suc (length cs)
  length-cells_at fmt cs none = ap suc (length-blanks cs)
  length-cells_at fmt cs (some t) = ap suc (length-values t cs)

  pub length-row_cells :
      (fmt : ℤ → QString) (cs : List (Cache Real)) (r : ℕ) → length (row_cells fmt cs r) ≡ width cs
  unfolding row_cells
  length-row_cells fmt [] r = refl
  length-row_cells fmt (c ∷ cs) r = length-cells_at fmt (c ∷ cs) (get_elem? (build_grid (c ∷ cs)) r)

  pub length-header_cells :
      (d : Domain) (cs : List (Cache Real)) → length (header_cells d cs) ≡ width cs
  length-header_cells d [] = refl
  length-header_cells d (c ∷ r) = ap suc (length-names (c ∷ r))
