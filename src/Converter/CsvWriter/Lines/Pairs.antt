-- ===== src/Converter/CsvWriter/Lines/Pairs.antt =====
-- The lines of a table with an X column for each channel (converter/src/CsvWriter.cpp).
use scope_analyser.Prelude.{
  ℕ, ◌*◌, ◌≡◌, refl, ap, sym, ◌∙◌, Bool, true, false, none, some, Option-cases, inl, inr, List, [],
  ◌∷◌, ◌++◌, All, length, get_elem?, get_or, append-nil, append_assoc, arith,
}
use scope_analyser.Prelude.Int.{ℤ}
use scope_analyser.Prelude.Text.{QString, join}
use scope_analyser.Converter.CsvWriter.{Cache, CsvExportOptions, NumberOps}
use scope_analyser.Converter.CsvWriter.Lines.{sep_of, per_signal_line, row_pair, x_cell, cell_text}

-- The line consists of `n` cells, of which each has the property, with separators between them.
abbrev pub IsAligned : (QString → Type 0) → QString → ℕ → QString → Type 0
IsAligned P sep n line =
    (cells : List QString) × (line ≡ join sep cells) × (length cells ≡ n) × All P cells

module _ {Real : Type 0} where
  -- The two cells of each channel.
  pairs : (Cache Real → QString) → (Cache Real → QString) → List (Cache Real) → List QString
  pairs left right [] = []
  pairs left right (c ∷ r) = left c ∷ right c ∷ pairs left right r

  length-pairs :
      (left right : Cache Real → QString) (cs : List (Cache Real))
      → length (pairs left right cs) ≡ 2 * length cs
  unfolding pairs
  length-pairs left right [] = omega arith
  length-pairs left right (c ∷ r) = omega (arith, length-pairs left right r)

  All-pairs :
      (P : QString → Type 0) (left right : Cache Real → QString) (cs : List (Cache Real))
      → All (λ c. P (left c) × P (right c)) cs
      → All P (pairs left right cs)
  unfolding pairs
  All-pairs P left right [] h = tt
  All-pairs P left right (c ∷ r) h = (h.0.0, (h.0.1, All-pairs P left right r h.1))

  pub All-channels :
      (P : Cache Real → Type 0) (cs : List (Cache Real)) → ((c : Cache Real) → P c) → All P cs
  All-channels P [] h = tt
  All-channels P (c ∷ r) h = (h c, All-channels P r h)

module _ {Real : Type 0} (ops : NumberOps Real) (opts : CsvExportOptions) where
  abbrev lead : Bool → List (Cache Real) → QString
  lead true cs = []
  lead false [] = []
  lead false (c ∷ r) = sep_of opts

  -- Two cells, with what follows them.
  join-pair :
      (l t : QString) (r : List (Cache Real)) (left right : Cache Real → QString)
      → join (sep_of opts) (l ∷ t ∷ pairs left right r)
        ≡ l ++ (sep_of opts ++ (t ++ (lead false r ++ join (sep_of opts) (pairs left right r))))
  unfolding join pairs
  join-pair l t [] left right = rw (append-nil t) refl
  join-pair l t (c ∷ r) left right = refl

  per_signal_line-join :
      (pair left right : Cache Real → QString)
      → ((c : Cache Real) → pair c ≡ left c ++ (sep_of opts ++ right c))
      → (first : Bool) (cs : List (Cache Real))
      → per_signal_line ops opts pair first cs
        ≡ lead first cs ++ join (sep_of opts) (pairs left right cs)
  unfolding per_signal_line pairs join
  per_signal_line-join pair left right split true [] = refl
  per_signal_line-join pair left right split false [] = refl
  per_signal_line-join pair left right split true (c ∷ r) =
      rw
        (
          split c,
          per_signal_line-join pair left right split false r,
          join-pair (left c) (right c) r left right,
        )
        (append_assoc (left c) _ _ ∙ ap (left c ++◌) (append_assoc (sep_of opts) _ _))
  per_signal_line-join pair left right split false (c ∷ r) =
      rw
        (
          split c,
          per_signal_line-join pair left right split false r,
          join-pair (left c) (right c) r left right,
        )
        (ap (sep_of opts ++◌)
          (append_assoc (left c) _ _ ∙ ap (left c ++◌) (append_assoc (sep_of opts) _ _)))

  -- A line of pairs of cells is aligned.
  pub per_signal_line-IsAligned :
      (P : QString → Type 0) (pair left right : Cache Real → QString)
      → ((c : Cache Real) → pair c ≡ left c ++ (sep_of opts ++ right c))
      → (cs : List (Cache Real)) → All (λ c. P (left c) × P (right c)) cs
      → IsAligned P (sep_of opts) (2 * length cs) (per_signal_line ops opts pair true cs)
  per_signal_line-IsAligned P pair left right split cs h = (
    pairs left right cs,
    per_signal_line-join pair left right split true cs,
    length-pairs left right cs,
    All-pairs P left right cs h,
  )

  -- The cells of a row's pair.
  abbrev pub left_cell : ℤ → ℕ → Cache Real → QString
  left_cell origin r c = elim (get_elem? c.timestamps r) [
    | some t ↦ x_cell ops opts origin c t
    | none ↦ []
  ]

  abbrev pub right_cell : ℕ → Cache Real → QString
  right_cell r c = elim (get_elem? c.timestamps r) [
    | some _ ↦ cell_text ops opts (get_or c.vals r ops.nan)
    | none ↦ []
  ]

  pub row_pair-split :
      (origin : ℤ) (r : ℕ) (c : Cache Real)
      → row_pair ops opts origin r c ≡ left_cell origin r c ++ (sep_of opts ++ right_cell r c)
  row_pair-split origin r c = elim (Option-cases (get_elem? c.timestamps r)) [
    | inl e ↦ rw (e, row_pair, left_cell, right_cell) (sym (append-nil (sep_of opts)))
    | inr (t, e) ↦ rw (e, row_pair, left_cell, right_cell) refl
  ]
