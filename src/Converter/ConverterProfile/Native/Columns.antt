-- ===== src/Converter/ConverterProfile/Native/Columns.antt =====
-- The grid of a file in the native JSON form (converter/src/JsonSource.cpp), beside the profile that is
-- made of that file (`profileFromScopeJson`, converter/src/ConverterProfile.cpp).
use scope_analyser.Prelude.{
  ℕ, ◌+◌, ◌≡◌, refl, ap, sym, ◌∙◌, some_inj, none≢some, Bool, true, false, Bool-cases, Option, none,
  some, inl, inr, ◌⊎◌, List, [], ◌∷◌, is_empty, if◌then◌else◌,
}
use mathlib.Core.Path.{subst}
use scope_analyser.Prelude.Text.{QString, codes, eq_text}
use scope_analyser.Prelude.Json.{JsonOps, ◌>>=◌, value}
use scope_analyser.Converter.TabularSource.{
  x_time, x_frequency, signal, ColumnMapping, ConverterProfile,
}
use scope_analyser.Converter.TabularSource.Labels.{col_label}
use scope_analyser.Converter.JsonSource.{
  ScalarOps, NativeSignal, array_or_none, arrays_of, native_signal, native_signals, native_rows,
}
use scope_analyser.Converter.JsonSource.Table.{load, signals_of}
use scope_analyser.Converter.ConverterProfile.Native.{
  is_array_at, is_usable, x_mapping, y_mapping, native_columns, native_profile, signals_at,
  profile_from_scope_json,
}

bind_some :
    {A B : Type 0} (m : Option A) (f : A → Option B) (b : B)
    → (m >>= f) ≡ some b
    → (a : A) × (m ≡ some a) × (f a ≡ some b)
bind_some none f b h = cc
bind_some (some a) f b h = (a, refl, h)

module _ {Real Json : Type 0} (json : JsonOps Real Json) (zero_real : Real) where
  -- The role and the unit of a signal's X column, in the frequency and in the time domain.
  abbrev XOf : Bool → ColumnMapping Real → Type 0
  XOf true x = (x.role ≡ x_frequency) × (x.unit ≡ codes "Hz")
  XOf false x = (x.role ≡ x_time) × (x.unit ≡ codes "ns")

  -- The two columns of a signal, from the grid's column `col` on.
  pub record IsPair (col : ℕ) (s : NativeSignal Json) (x y : ColumnMapping Real) : Type 0 where
    pub x_label : x.column_id ≡ col_label col
    pub x_kind : XOf s.is_frequency x
    pub y_label : y.column_id ≡ col_label (col + 1)
    pub y_role : y.role ≡ signal
    pub y_name : y.signal_name ≡ s.name
    pub y_source : y.x_source_column ≡ x.column_id

  -- The columns of a profile are, two for each, those of the signals.
  abbrev pub Matches : ℕ → List (NativeSignal Json) → List (ColumnMapping Real) → Type 0
  Matches col [] [] = Unit
  Matches col (s ∷ ss) (x ∷ y ∷ cols) = IsPair col s x y × Matches (col + 2) ss cols
  Matches col _ _ = ⊥

  x_mapping-XOf : (col : ℕ) (freq : Bool) → XOf freq (x_mapping json zero_real col freq)
  unfolding x_mapping
  x_mapping-XOf col true = (refl, refl)
  x_mapping-XOf col false = (refl, refl)

  mapping-IsPair :
      (col : ℕ) (s : NativeSignal Json) (unit : QString)
      → IsPair col s
          (x_mapping json zero_real col s.is_frequency)
          (y_mapping json zero_real col s.name unit)
  unfolding x_mapping y_mapping
  mapping-IsPair col s unit = record {
    x_label = refl;
    x_kind = x_mapping-XOf col s.is_frequency;
    y_label = refl;
    y_role = refl;
    y_name = refl;
    y_source = refl;
  }

  module _ (scalars : ScalarOps Real Json) where
    -- The signals of the grid, which the columns from `col` on are those of.
    abbrev HasGrid : ℕ → List Json → List (ColumnMapping Real) → Type 0
    HasGrid col js cols =
        (ss : List (NativeSignal Json)) × (native_signals json scalars js ≡ some ss)
        × Matches col ss cols

    array_cases :
        (o : Option Json)
        → ((is_array_at json zero_real o ≡ true)
            × ((l : List Json) × (array_or_none json scalars o ≡ some l)))
          ⊎ ((is_array_at json zero_real o ≡ false) × (array_or_none json scalars o ≡ none))
    array_cases none = inr (refl, refl)
    array_cases (some j) = elim (Bool-cases (json.is_array j)) [
      | inl e ↦ inl (e, (json.elements j, rw e refl))
      | inr e ↦ inr (e, rw e refl)
    ]

    -- The two readers agree on which signals can be used.
    is_usable-arrays_of :
        (j : Json)
        → ((is_usable json zero_real j ≡ true)
            × ((a : List Json × List Json) × (arrays_of json scalars j ≡ some a)))
          ⊎ ((is_usable json zero_real j ≡ false) × (arrays_of json scalars j ≡ none))
    unfolding is_usable arrays_of
    is_usable-arrays_of j = elim (Bool-cases (json.is_object j)) [
      | inr e ↦ inr (rw e refl, rw e refl)
      | inl e ↦ elim (array_cases (json.member j (codes "t"))) [
        | inr (e1, n1) ↦ inr (rw (e, e1) refl, rw (e, n1) refl)
        | inl (e1, (t, s1)) ↦ elim (array_cases (json.member j (codes "v"))) [
          | inr (e2, n2) ↦ inr (rw (e, e1, e2) refl, rw (e, s1, n2) refl)
          | inl (e2, (v, s2)) ↦ inl (rw (e, e1, e2) refl, ((t, v), rw (e, s1, s2) refl))
        ]
      ]
    ]

    module _ (j : Json) (r : List Json) where
      native_signals-skip :
          arrays_of json scalars j ≡ none
          → native_signals json scalars (j ∷ r) ≡ native_signals json scalars r
      unfolding native_signals
      native_signals-skip n = rw (n, native_signals) refl

      native_columns-skip :
          (col : ℕ)
          → is_usable json zero_real j ≡ false
          → native_columns json zero_real col (j ∷ r) ≡ native_columns json zero_real col r
      unfolding native_columns
      native_columns-skip col e = rw (e, native_columns) refl

      native_signals-next :
          (a : List Json × List Json)
          → arrays_of json scalars j ≡ some a
          → native_signals json scalars (j ∷ r) ≡ (
              native_signal json scalars j a >>= λ s.
              native_signals json scalars r >>= λ rest. some (s ∷ rest))
      unfolding native_signals
      native_signals-next a n = rw (n, native_signals) refl

      -- The columns of a signal, before those of the others.
      abbrev next_columns : ℕ → Option (List (ColumnMapping Real))
      next_columns col = value json json.as_text j (codes "name") [] >>= λ name.
          value json json.as_text j (codes "unit") [] >>= λ unit.
          value json json.as_text j (codes "domain") (codes "time") >>= λ domain.
          native_columns json zero_real (col + 2) r >>= λ rest. some (
            x_mapping json zero_real col (eq_text domain (codes "frequency"))
            ∷ y_mapping json zero_real col name unit
            ∷ rest)

      native_columns-next :
          (col : ℕ)
          → is_usable json zero_real j ≡ true
          → native_columns json zero_real col (j ∷ r) ≡ next_columns col
      unfolding native_columns
      native_columns-next col e = rw (e, native_columns) refl

      abbrev signal_from : QString → QString → List Json × List Json → NativeSignal Json
      signal_from name domain (t, v) = record {
        name = name;
        is_frequency = eq_text domain (codes "frequency");
        t = t;
        v = v;
      }

      signals_from :
          (name domain : QString) (t v : List Json) (ss : List (NativeSignal Json))
          → value json json.as_text j (codes "name") [] ≡ some name
          → value json json.as_text j (codes "domain") (codes "time") ≡ some domain
          → native_signals json scalars r ≡ some ss
          → (native_signal json scalars j (t, v) >>= λ s.
              native_signals json scalars r >>= λ rest. some (s ∷ rest))
            ≡ some (signal_from name domain (t, v) ∷ ss)
      unfolding native_signal
      signals_from name domain t v ss kn kd hs = rw (kn, kd, hs) refl

      -- The columns of one usable signal, where the other signals have theirs.
      next-HasGrid :
          (col : ℕ) (a : List Json × List Json) (cols : List (ColumnMapping Real))
          → arrays_of json scalars j ≡ some a
          → ((cols' : List (ColumnMapping Real))
              → native_columns json zero_real (col + 2) r ≡ some cols'
              → HasGrid (col + 2) r cols')
          → next_columns col ≡ some cols
          → HasGrid col (j ∷ r) cols
      next-HasGrid col (t, v) cols n ih k =
          let (name, kn, k1) = bind_some (value json json.as_text j (codes "name") []) _ cols k in
          let (unit, ku, k2) = bind_some (value json json.as_text j (codes "unit") []) _ cols k1 in
          let (domain, kd, k3) =
            bind_some (value json json.as_text j (codes "domain") (codes "time")) _ cols k2 in
          let (cols', kc, k4) = bind_some (native_columns json zero_real (col + 2) r) _ cols k3 in
          let (ss, hs, m) = ih cols' kc in
          (
            signal_from name domain (t, v) ∷ ss,
            native_signals-next (t, v) n ∙ signals_from name domain t v ss kn kd hs,
            subst (Matches col (signal_from name domain (t, v) ∷ ss)) (some_inj k4)
                (mapping-IsPair col (signal_from name domain (t, v)) unit, m),
          )

    -- Where the profile has its columns, the grid has its signals.
    native_columns-HasGrid :
        (js : List Json) (col : ℕ) (cols : List (ColumnMapping Real))
        → native_columns json zero_real col js ≡ some cols
        → HasGrid col js cols
    unfolding native_signals native_columns
    native_columns-HasGrid [] col cols k = ([], refl, subst (Matches col []) (some_inj k) tt)
    native_columns-HasGrid (j ∷ r) col cols k = elim (is_usable-arrays_of j) [
      | inr (e, n) ↦
          let (ss, hs, m) =
            native_columns-HasGrid r col cols (sym (native_columns-skip j r col e) ∙ k) in
          (ss, native_signals-skip j r n ∙ hs, m)
      | inl (e, (a, n)) ↦
          next-HasGrid j r col a cols n (native_columns-HasGrid r (col + 2))
            (sym (native_columns-next j r col e) ∙ k)
    ]

    signals_of_lem :
        (root : Json)
        → (if json.is_object root
            then signals_at json zero_real (json.member root (codes "signals"))
            else none)
          ≡ signals_of json scalars root
    signals_of_lem root = elim (json.member root (codes "signals")) [ none ↦ refl | some j ↦ refl ]

    -- A profile with columns has signals to read.
    rows-Matches :
        (root : Json) (js : List Json) (ss : List (NativeSignal Json))
        (cols : List (ColumnMapping Real)) (p : ConverterProfile Real)
        → signals_of json scalars root ≡ some js
        → native_signals json scalars js ≡ some ss
        → Matches 0 ss cols
        → (if is_empty cols then none else some (native_profile json zero_real cols)) ≡ some p
        → (load json scalars root ≡ some (native_rows json scalars ss)) × Matches 0 ss p.columns
    unfolding load
    rows-Matches root js ss [] p hj hs m e = absurd (none≢some e)
    rows-Matches root js [] (x ∷ cols) p hj hs m e = absurd m
    rows-Matches root js (s ∷ ss) (x ∷ cols) p hj hs m e =
        (rw (hj, load, hs) refl, subst (Matches 0 (s ∷ ss)) (ap (λ q. q.columns) (some_inj e)) m)

    -- Where a file in the native JSON form gives a profile: the grid of the same file is that of its
    -- native signals, and the profile has two columns for each signal, under the labels of the
    -- grid's two: an X column with the role and the unit of the signal's domain, and a channel of
    -- the signal's name that takes it.
    pub profile_from_scope_json-load :
        (root : Json) (p : ConverterProfile Real)
        → profile_from_scope_json json zero_real root ≡ some p
        → (ss : List (NativeSignal Json)) × (load json scalars root
            ≡ some (native_rows json scalars ss))
          × Matches 0 ss p.columns
    unfolding profile_from_scope_json
    profile_from_scope_json-load root p h =
        let (js, hj, h1) =
          bind_some
            (if json.is_object root
              then signals_at json zero_real (json.member root (codes "signals"))
              else none)
            _ p h in
        let (cols, hc, h2) = bind_some (native_columns json zero_real 0 js) _ p h1 in
        let (ss, hs, m) = native_columns-HasGrid js 0 cols hc in
        let (e, columns) =
          rows-Matches root js ss cols p (sym (signals_of_lem root) ∙ hj) hs m h2 in
        (ss, e, columns)
