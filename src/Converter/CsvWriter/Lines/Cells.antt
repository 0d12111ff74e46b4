-- ===== src/Converter/CsvWriter/Lines/Cells.antt =====
-- A property of the texts of numbers and headers is one of every cell (converter/src/CsvWriter.cpp).
use scope_analyser.Prelude.{
  ℕ, Bool-cases, inl, inr, Option, none, some, List, [], ◌∷◌, All, get_elem?,
}
use scope_analyser.Prelude.Int.{ℤ}
use scope_analyser.Prelude.Text.{QString}
use scope_analyser.Core.Types.{Domain}
use scope_analyser.Converter.CsvWriter.{
  Cache, CsvExportOptions, NumberOps, column_header, per_sig_x_header, shared_x_label, time_unit,
  is_freq, time_caches, freq_caches, is_epoch,
}
use scope_analyser.Converter.CsvWriter.Grid.{build_grid}
use scope_analyser.Converter.CsvWriter.Lines.{cell_text, fmt_time_x, fmt_freq_x, x_cell, value_at}
use scope_analyser.Converter.CsvWriter.Lines.Alignment.{
  names, values, blanks, header_cells, cells_at, row_cells,
}

module _ {Real : Type 0} (ops : NumberOps Real) (opts : CsvExportOptions)
    (P : QString → Type 0) where
  abbrev pub HasHeaders : List (Cache Real) → Type 0
  HasHeaders =
      All (λ c. P (column_header c.signal) × P (per_sig_x_header c.signal (time_unit opts)))

  -- The texts that an export of the channels writes between delimiters.
  pub record HasTexts (cs : List (Cache Real)) : Type 0 where
    pub blank : P []
    pub number : (v : Real) → P (cell_text ops opts v)
    pub integer : (t : ℤ) → P (ops.integer t)
    pub label : (d : Domain) → P (shared_x_label d (time_unit opts))
    pub headers : HasHeaders cs

  time_caches-HasHeaders : (cs : List (Cache Real)) → HasHeaders cs → HasHeaders (time_caches cs)
  unfolding time_caches
  time_caches-HasHeaders [] h = tt
  time_caches-HasHeaders (c ∷ r) h = elim (Bool-cases (is_freq c.signal)) [
    | inl e ↦ rw e (time_caches-HasHeaders r h.1)
    | inr e ↦ rw e (h.0, time_caches-HasHeaders r h.1)
  ]

  freq_caches-HasHeaders : (cs : List (Cache Real)) → HasHeaders cs → HasHeaders (freq_caches cs)
  unfolding freq_caches
  freq_caches-HasHeaders [] h = tt
  freq_caches-HasHeaders (c ∷ r) h = elim (Bool-cases (is_freq c.signal)) [
    | inl e ↦ rw e (h.0, freq_caches-HasHeaders r h.1)
    | inr e ↦ rw e (freq_caches-HasHeaders r h.1)
  ]

  module _ (all : List (Cache Real)) (texts : HasTexts all) where
    pub All-names : (cs : List (Cache Real)) → HasHeaders cs → All P (names ops opts cs)
    All-names [] h = tt
    All-names (c ∷ r) h = (h.0.0, All-names r h.1)

    pub All-header_cells :
        (d : Domain) (cs : List (Cache Real)) → HasHeaders cs → All P (header_cells ops opts d cs)
    All-header_cells d [] h = tt
    All-header_cells d (c ∷ r) h = (texts.label d, All-names (c ∷ r) h)

    pub fmt_time_x_text : (origin t : ℤ) → P (fmt_time_x ops opts origin t)
    unfolding fmt_time_x
    fmt_time_x_text origin t = elim (Bool-cases (is_epoch opts)) [
      | inl e ↦ rw e (texts.integer t)
      | inr e ↦ rw e (texts.number _)
    ]

    pub fmt_freq_x_text : (t : ℤ) → P (fmt_freq_x ops opts t)
    unfolding fmt_freq_x
    fmt_freq_x_text t = texts.number _

    pub x_cell_text : (origin : ℤ) (c : Cache Real) (t : ℤ) → P (x_cell ops opts origin c t)
    x_cell_text origin c t = elim (Bool-cases (is_freq c.signal)) [
      | inl e ↦ rw e (fmt_freq_x_text t)
      | inr e ↦ rw e (fmt_time_x_text origin t)
    ]

    All-values : (t : ℤ) (cs : List (Cache Real)) → All P (values ops opts t cs)
    unfolding value_at
    All-values t [] = tt
    All-values t (c ∷ r) = (texts.number _, All-values t r)

    All-blanks : (cs : List (Cache Real)) → All P (blanks ops opts cs)
    All-blanks [] = tt
    All-blanks (c ∷ r) = (texts.blank, All-blanks r)

    All-cells_at :
        (fmt : ℤ → QString) (cs : List (Cache Real)) (o : Option ℤ)
        → ((t : ℤ) → P (fmt t))
        → All P (cells_at ops opts fmt cs o)
    All-cells_at fmt cs none h = (texts.blank, All-blanks cs)
    All-cells_at fmt cs (some t) h = (h t, All-values t cs)

    pub All-row_cells :
        (fmt : ℤ → QString) (cs : List (Cache Real)) (r : ℕ)
        → ((t : ℤ) → P (fmt t))
        → All P (row_cells ops opts fmt cs r)
    unfolding row_cells
    All-row_cells fmt [] r h = tt
    All-row_cells fmt (c ∷ cs) r h = All-cells_at fmt (c ∷ cs) (get_elem? (build_grid (c ∷ cs)) r) h

    pub headers_of_times : HasHeaders (time_caches all)
    headers_of_times = time_caches-HasHeaders all texts.headers

    pub headers_of_frequencies : HasHeaders (freq_caches all)
    headers_of_frequencies = freq_caches-HasHeaders all texts.headers
