-- ===== src/Ads/TypeTable/Aggregates/Laws.antt =====
-- What the expansion of one symbol of a listing guarantees (`expandAggregates` of ads/src/AdsTypeTable.cpp).
use scope_analyser.Prelude.{
  ℕ, zero, suc, ◌≤◌, ◌≡◌, refl, false, List, arith, ◌==◌, length, All, is_empty, Bool-cases,
  Option-cases, inl, inr,
}
use scope_analyser.Prelude.Int.{ℤ, pos, ltb_ℤ, pos_part}
use scope_analyser.Prelude.Text.{QString}
use scope_analyser.Core.Types.{DataType}
use scope_analyser.Ads.Interfaces.{TextOps, AdsSymbol}
use scope_analyser.Ads.TypeNames.{
  ArrayDim, ArrayTypeInfo, parse_array_type_name, data_type_from_plc_type_name,
}
use scope_analyser.Ads.TypeNames.Declaration.{counts_of}
use scope_analyser.Ads.TypeNames.Odometer.{zeros}
use scope_analyser.Ads.TypeNames.ArraySymbol.{
  element, elements, expand_declared, expand_array_symbol,
}
use scope_analyser.Ads.TypeNames.ArraySymbol.Elements.{length-elements}
use scope_analyser.Ads.TypeTable.{AdsTypeTable}
use scope_analyser.Ads.TypeTable.Expand.Step.{IsRecordable}
use scope_analyser.Ads.TypeTable.Expand.Laws.{expand_with_type_table-IsRecordable}
use scope_analyser.Ads.TypeTable.Aggregates.{
  ExpansionReport, expand_declaration, expand_listed, expand_one,
}

-- At most so many leaves, each of them recordable.
abbrev pub Leaves : ℕ → List AdsSymbol → Type 0
Leaves cap l = (length l ≤ cap) × All IsRecordable l

module _ (qt : TextOps) (types : AdsTypeTable) where
  elements-IsRecordable :
      (s : AdsSymbol) (t : QString) (e : DataType) (dims : List ArrayDim) (rounds n : ℕ)
      (idx : List ℕ)
      → All IsRecordable (elements qt s t e dims rounds n idx)
  unfolding elements element
  elements-IsRecordable s t e dims zero n idx = tt
  elements-IsRecordable s t e dims (suc rounds) n idx =
      ((refl, refl, refl), elements-IsRecordable s t e dims rounds (suc n) _)

  total_le : (t : ℤ) (cap : ℕ) → ltb_ℤ (pos cap) t ≡ false → pos_part t ≤ cap
  total_le t cap h = ground arith

  declared-Leaves :
      (s : AdsSymbol) (info : ArrayTypeInfo) (e : DataType) (cap : ℕ)
      → Leaves cap (expand_declared qt s info e (pos cap)).0
  unfolding expand_declared
  declared-Leaves s info e cap = ground (
    arith,
    total_le info.total_elements cap,
    length-elements qt s info.element_type_name e info.dims (pos_part info.total_elements) 0
        (zeros (counts_of info.dims)),
    elements-IsRecordable s info.element_type_name e info.dims (pos_part info.total_elements) 0
        (zeros (counts_of info.dims)),
  )

  array-Leaves : (s : AdsSymbol) (cap : ℕ) → Leaves cap (expand_array_symbol qt s (pos cap)).0
  unfolding expand_array_symbol
  array-Leaves s cap = elim (Option-cases (parse_array_type_name qt s.type_name)) [
    | inl p ↦ rw (expand_array_symbol, p) (omega arith, tt)
    | inr (info, p) ↦ elim (Option-cases (data_type_from_plc_type_name qt info.element_type_name)) [
      | inl q ↦ rw (expand_array_symbol, p, q) (omega arith, tt)
      | inr (e, q) ↦ rw (expand_array_symbol, p, q) (declared-Leaves s info e cap)
    ]
  ]

  declaration-Leaves :
      (s : AdsSymbol) (cap : ℕ) (rep : ExpansionReport)
      → Leaves cap (expand_declaration qt types s cap rep).0
  unfolding expand_declaration
  declaration-Leaves s cap rep = ground (arith, array-Leaves s cap)

  listed-Leaves : (s : AdsSymbol) (cap : ℕ) → Leaves cap (expand_listed qt types s cap).0
  unfolding expand_listed
  listed-Leaves s cap =
      let r = expand_with_type_table-IsRecordable qt types s cap in
      elim (Bool-cases (is_empty types)) [
        | inl e ↦ rw (expand_listed, e) (omega arith, tt)
        | inr e ↦ rw (expand_listed, e) (r.0, r.1)
      ]

  pub one-Leaves : (s : AdsSymbol) (cap : ℕ) → Leaves cap (expand_one qt types s cap).0
  unfolding expand_one
  one-Leaves s cap =
      let listed = listed-Leaves s cap in
      let declared = declaration-Leaves s cap (expand_listed qt types s cap).1 in
      elim (Bool-cases (cap == 0)) [
        | inl z ↦ rw (expand_one, z) (omega arith, tt)
        | inr z ↦ elim (Bool-cases (is_empty (expand_listed qt types s cap).0)) [
          | inl e ↦ rw (expand_one, z, e) declared
          | inr e ↦ rw (expand_one, z, e) listed
        ]
      ]
