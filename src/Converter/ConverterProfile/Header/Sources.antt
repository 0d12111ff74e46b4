-- ===== src/Converter/ConverterProfile/Header/Sources.antt =====
-- Which X column a channel of the guessed profile takes (`profileFromCsvHeader`,
-- converter/src/ConverterProfile.cpp).
use scope_analyser.Prelude.{
  ℕ, suc, ◌+◌, ◌≡◌, refl, some_inj, none≢some, Bool-cases, Option, none, some, Option-cases, inl,
  inr, List, [], ◌∷◌, ◌++◌, is_empty, length, ltb, ◌==◌, ◌||◌, if◌then◌else◌,
}
use mathlib.Core.Path.{subst}
use scope_analyser.Prelude.Text.{QString}
use scope_analyser.Converter.TabularSource.{Role, signal, ColumnMapping, ConverterProfile}
use scope_analyser.Converter.TabularSource.Labels.{col_label}
use scope_analyser.Converter.ConverterProfile.Header.{
  is_shared_x, is_freq_header, split_name_unit, x_header, y_header, shared_headers, shared_channel,
  pair_channel, pair_headers, header_columns, is_shared, header_profile, with_both, x_count,
  channel_count, header_line, profile_from_line, profile_from_csv_header, separator, split_at_char,
}

-- Each channel takes the X column that comes last before it, from `last` on.
abbrev Step :
    {Real : Type 0}
    → Role
    → (ColumnMapping Real)
    → Option QString
    → (Option QString → Type 0)
    → Type 0
Step signal c last rest = (some c.x_source_column ≡ last) × rest last
Step _ c last rest = rest (some c.column_id)

abbrev pub IsSourced : {Real : Type 0} → List (ColumnMapping Real) → Option QString → Type 0
IsSourced [] last = Unit
IsSourced (c ∷ r) last = Step c.role c last (IsSourced r)

module _ {Real : Type 0} (trimmed : QString → QString) (zero_real : Real) where
  x_header-IsSourced :
      (i : ℕ) (h : QString) (last : Option QString) (r : List (ColumnMapping Real))
      → IsSourced r (some (col_label i))
      → IsSourced (x_header trimmed zero_real i h ∷ r) last
  unfolding x_header
  x_header-IsSourced i h last r s = elim (Bool-cases (is_freq_header trimmed zero_real h)) [
    | inl e ↦ rw e s
    | inr e ↦ rw e s
  ]

  abbrev label_of : Option ℕ → Option QString
  label_of none = none
  label_of (some i) = some (col_label i)

  channel-IsSourced :
      (i : ℕ) (cur : Option ℕ) (nu : QString × QString) (r : List (ColumnMapping Real))
      → IsSourced r (label_of cur)
      → IsSourced (shared_channel trimmed zero_real i cur nu ++ r) (label_of cur)
  unfolding y_header
  channel-IsSourced i none nu r s = s
  channel-IsSourced i (some x) (name, unit) r s = elim (Bool-cases (is_empty name)) [
    | inl e ↦ rw e s
    | inr e ↦ rw e (refl, s)
  ]

  shared_headers-IsSourced :
      (headers : List QString) (i : ℕ) (cur : Option ℕ)
      → IsSourced (shared_headers trimmed zero_real i cur headers) (label_of cur)
  unfolding shared_headers y_header
  shared_headers-IsSourced [] i cur = tt
  shared_headers-IsSourced (h ∷ r) i cur = elim (Bool-cases (is_shared_x trimmed zero_real h)) [
    | inl e ↦
        rw (e, shared_headers)
          (x_header-IsSourced i h (label_of cur)
            (shared_headers trimmed zero_real (suc i) (some i) r)
            (shared_headers-IsSourced r (suc i) (some i)))
    | inr e ↦
        rw (e, shared_headers)
          (channel-IsSourced i cur (split_name_unit trimmed zero_real h)
            (shared_headers trimmed zero_real (suc i) cur r)
            (shared_headers-IsSourced r (suc i) cur))
  ]

  pair_headers-IsSourced :
      (headers : List QString) (i : ℕ) (last : Option QString)
      → IsSourced (pair_headers trimmed zero_real i headers) last
  unfolding pair_headers y_header
  pair_headers-IsSourced [] i last = tt
  pair_headers-IsSourced (x ∷ []) i last = tt
  pair_headers-IsSourced (x ∷ y ∷ r) i last =
      x_header-IsSourced i x last
        (pair_channel trimmed zero_real i (split_name_unit trimmed zero_real y)
          ∷ pair_headers trimmed zero_real (i + 2) r)
        (refl, pair_headers-IsSourced r (i + 2) (some (col_label i)))

  header_columns-IsSourced :
      (headers : List QString) → IsSourced (header_columns trimmed zero_real headers) none
  unfolding header_columns
  header_columns-IsSourced headers = elim (Bool-cases (is_shared trimmed zero_real headers)) [
    | inl e ↦ rw e (shared_headers-IsSourced headers 0 none)
    | inr e ↦ rw e (pair_headers-IsSourced headers 0 none)
  ]

  with_both-IsSourced :
      (sep : ℕ) (columns : List (ColumnMapping Real)) (p : ConverterProfile Real)
      → IsSourced columns none
      → with_both trimmed zero_real sep columns ≡ some p
      → IsSourced p.columns none
  with_both-IsSourced sep columns p s e =
      elim (Bool-cases (
        (x_count trimmed zero_real columns == 0)
        || (channel_count trimmed zero_real columns == 0))) [
          | inl b ↦ absurd (
              none≢some (
                subst
                  (λ t.
                    (if t then none else some (header_profile trimmed zero_real sep columns))
                    ≡ some p)
                  b e))
          | inr b ↦
              subst (λ q. IsSourced (q.columns) none)
                (some_inj (
                  subst
                    (λ t.
                      (if t then none else some (header_profile trimmed zero_real sep columns))
                      ≡ some p)
                    b e))
                s
        ]

  line-IsSourced :
      (line : QString) (p : ConverterProfile Real)
      → profile_from_line trimmed zero_real (some line) ≡ some p
      → IsSourced p.columns none
  line-IsSourced line p e =
      let headers = split_at_char (separator line) [] line in
      elim (Bool-cases (ltb (length headers) 2)) [
        | inl b ↦ absurd (
            none≢some (
              subst
                (λ t.
                  (if t
                    then none
                    else with_both trimmed zero_real (separator line)
                        (header_columns trimmed zero_real headers))
                  ≡ some p)
                b e))
        | inr b ↦
            with_both-IsSourced (separator line) (header_columns trimmed zero_real headers) p
              (header_columns-IsSourced headers)
              (subst
                (λ t.
                  (if t
                    then none
                    else with_both trimmed zero_real (separator line)
                        (header_columns trimmed zero_real headers))
                  ≡ some p)
                b e)
      ]

  -- Where a file's header gives a profile: each of its channels takes its X values from the X column
  -- that comes last before it, in the shared layout and in pairs, and no channel comes before the
  -- first X column.
  pub profile_from_csv_header-IsSourced :
      (lines : List QString) (p : ConverterProfile Real)
      → profile_from_csv_header trimmed zero_real lines ≡ some p
      → IsSourced p.columns none
  unfolding profile_from_csv_header
  profile_from_csv_header-IsSourced lines p h =
      elim (Option-cases (header_line trimmed zero_real lines)) [
        | inl e ↦
            absurd (none≢some (subst (λ l. profile_from_line trimmed zero_real l ≡ some p) e h))
        | inr (line, e) ↦
            line-IsSourced line p (subst (λ l. profile_from_line trimmed zero_real l ≡ some p) e h)
      ]
