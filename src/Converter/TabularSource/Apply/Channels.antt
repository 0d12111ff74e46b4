-- ===== src/Converter/TabularSource/Apply/Channels.antt =====
-- Which signals an import returns, under which names (converter/src/TabularSource.cpp).
use scope_analyser.Prelude.{◌≢◌, ℕ, ◌≡◌, Bool, true, false, List, [], ◌∷◌, ◌++◌, if◌then◌else◌}
use scope_analyser.Prelude.Text.{QString, codes}
use scope_analyser.Prelude.Dict.{Dict}
use scope_analyser.Core.Signal.{Signal}
use scope_analyser.Converter.TabularSource.{ColumnMapping, ConverterProfile, Rows, resolve_range}
use scope_analyser.Converter.TabularSource.Vectors.{Vectors}
use scope_analyser.Converter.TabularSource.Labels.{col_label}
use scope_analyser.Converter.TabularSource.Reading.{Reading}
use scope_analyser.Converter.TabularSource.Apply.{
  Context, Import, Outcome, applied, channel_name, is_empty_range,
}

-- A channel's name in the profile, or "Col" and the label of its column where it has none.
abbrev pub IsName : {Real : Type 0} → ℕ → ColumnMapping Real → QString → Type 0
IsName y_col y n =
    (y.signal_name ≢ [] → n ≡ y.signal_name)
    × (y.signal_name ≡ [] → n ≡ codes "Col" ++ col_label y_col)

-- One name more unless the channel has no rows.
abbrev Next : Bool → (QString → Type 0) → (List QString → Type 0) → List QString → Type 0
Next true named rest ns = rest ns
Next false named rest [] = ⊥
Next false named rest (n ∷ ns) = named n × rest ns

-- The names are, in order, those of the channels whose range of rows is not empty.
abbrev pub AreNamed :
    {Real : Type 0}
    → Rows
    → ConverterProfile Real
    → List (ℕ × ColumnMapping Real)
    → List QString
    → Type 0
AreNamed rows profile [] [] = Unit
AreNamed rows profile [] (_ ∷ _) = ⊥
AreNamed rows profile ((y_col, y) ∷ r) ns =
    Next (is_empty_range (resolve_range rows profile y)) (IsName y_col y) (AreNamed rows profile r)
      ns

abbrev pub names : List Signal → List QString
names [] = []
names (s ∷ r) = s.meta.name ∷ names r

-- The import goes on with one more name, or with none.
abbrev Adds : List QString → Import → Outcome Import → Type 0
Adds more st o = (st' : Import) × (o ≡ applied st') × (names st'.out ≡ names st.out ++ more)

module _ {Real : Type 0} (ctx : Context Real) where
  module _ (rows : Rows) (profile : ConverterProfile Real) where
    -- The names of the channels that have rows, in the profile's order.
    unfoldable pub names_with_rows : List (ℕ × ColumnMapping Real) → List QString
    names_with_rows [] = []
    names_with_rows ((y_col, y) ∷ r) =
        (if is_empty_range (resolve_range rows profile y)
          then []
          else channel_name ctx y_col y ∷ [])
        ++ names_with_rows r
