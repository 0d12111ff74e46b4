-- ===== src/Converter/TabularSource/Apply/Axes.antt =====
-- Where a channel of an import takes its X axis from (converter/src/TabularSource.cpp).
use scope_analyser.Prelude.{
  some, Bool-cases, inl, inr, ℕ, ◌≡◌, true, false, List, [], ◌∷◌, All, is_empty,
}
use scope_analyser.Prelude.Dict.{find}
use scope_analyser.Converter.TabularSource.{
  ColumnMapping, ConverterProfile, XIndex, XStrategy, by_rate, by_column, resolve_x_strategy,
}

abbrev pub HasSource : {Real : Type 0} → XStrategy Real → Type 0
HasSource (by_rate _) = Unit
HasSource (by_column _) = Unit
HasSource _ = ⊥

-- A channel has an X axis: a rate of its own, the X column that it names, the first X column, or the
-- profile's rate, each where the ones before it are not given.
pub data HasAxis {Real : Type 0} (profile : ConverterProfile Real) (index : XIndex Real)
    (y : ColumnMapping Real) : Type 0 where
  own_rate : y.use_sample_rate ≡ true → HasAxis profile index y
  own_column :
      (c : ColumnMapping Real)
      → is_empty y.x_source_column ≡ false
      → find y.x_source_column index.x_by_label ≡ some c
      → HasAxis profile index y
  first_column :
      (c : ColumnMapping Real)
      → is_empty y.x_source_column ≡ true
      → is_empty index.first_x_label ≡ false
      → find index.first_x_label index.x_by_label ≡ some c
      → HasAxis profile index y
  shared_rate :
      is_empty y.x_source_column ≡ true
      → is_empty index.first_x_label ≡ true
      → profile.use_sample_rate ≡ true
      → HasAxis profile index y

HasAxis-HasSource :
    {Real : Type 0} (profile : ConverterProfile Real) (index : XIndex Real) (y : ColumnMapping Real)
    → HasAxis profile index y
    → HasSource (resolve_x_strategy profile index y)
unfolding resolve_x_strategy
HasAxis-HasSource profile index y (own_rate e) = rw e tt
HasAxis-HasSource profile index y (own_column c n f) = elim (Bool-cases y.use_sample_rate) [
  | inl e ↦ rw e tt
  | inr e ↦ rw (e, n, f, n) tt
]
HasAxis-HasSource profile index y (first_column c n m f) = elim (Bool-cases y.use_sample_rate) [
  | inl e ↦ rw e tt
  | inr e ↦ rw (e, n, m, f) tt
]
HasAxis-HasSource profile index y (shared_rate n m p) = elim (Bool-cases y.use_sample_rate) [
  | inl e ↦ rw e tt
  | inr e ↦ rw (e, n, m, p) tt
]

pub All-HasSource :
    {Real : Type 0} (profile : ConverterProfile Real) (index : XIndex Real)
    (specs : List (ℕ × ColumnMapping Real))
    → All (λ spec. HasAxis profile index spec.1) specs
    → All (λ spec. HasSource (resolve_x_strategy profile index spec.1)) specs
All-HasSource profile index [] h = tt
All-HasSource profile index (x ∷ r) h =
    (HasAxis-HasSource profile index x.1 h.0, All-HasSource profile index r h.1)
