-- ===== src/Ads/TypeNames/ArraySymbol.antt =====
-- `expandArraySymbol` of ads/src/AdsTypeNames.cpp. A warning is the case that it tells of; its words
-- are left out.
pub mod Elements
use scope_analyser.Prelude.{
  ℕ, zero, suc, ◌+◌, ◌*◌, ◌%◌, Bool, true, false, not, ◌&&◌, Option, none, some, List, [], ◌∷◌,
  ◌++◌, ◌==◌, map, if◌then◌else◌,
}
use scope_analyser.Prelude.Int.{ℤ, pos, pos_part, ltb_ℤ, eqb_ℤ, ◌+ℤ◌, ◌*ℤ◌}
use scope_analyser.Prelude.Words.{u32_mod, add32}
use scope_analyser.Prelude.Text.{QString, codes, join}
use scope_analyser.Core.Types.{DataType, size_of}
use scope_analyser.Ads.Interfaces.{TextOps, AdsSymbol}
use scope_analyser.Ads.TypeNames.{
  ArrayDim, ArrayTypeInfo, count, parse_array_type_name, data_type_from_plc_type_name,
}
use scope_analyser.Ads.TypeNames.Declaration.{counts_of}
use scope_analyser.Ads.TypeNames.Odometer.{advance, zeros}

pub data ArrayWarning : Type 0 where
  -- the elements are of no recordable type
  unrecordable_elements : ArrayWarning
  -- more elements than may be listed
  too_many_elements : ArrayWarning
  -- the declaration implies another size than the PLC reports
  size_mismatch : ArrayWarning

module _ (qt : TextOps) where
  -- The subscripts of an index vector: each dimension's lower bound plus its index.
  unfoldable pub subscripts : List ArrayDim → List ℕ → List QString
  unfolding ◌+ℤ◌
  subscripts (d ∷ ds) (i ∷ is) = qt.number (d.lower +ℤ pos i) ∷ subscripts ds is
  subscripts _ _ = []

  -- `QString("%1[%2]").arg(name, sub.join(','))`
  unfoldable pub element_name : QString → List ArrayDim → List ℕ → QString
  unfolding subscripts join
  element_name name dims idx =
      name ++ (b'[' ∷ (join (codes ",") (subscripts dims idx) ++ b']' ∷ []))

  unfoldable pub element : AdsSymbol → QString → DataType → List ArrayDim → ℕ → List ℕ → AdsSymbol
  unfolding element_name add32
  element sym type_name elem_type dims n idx = record sym {
    name = element_name sym.name dims idx;
    type_name = type_name;
    data_type = elem_type;
    unsupported = false;
    ads_data_type = 0;
    size = size_of elem_type;
    array_len = 1;
    index_offset = add32 sym.index_offset (n * size_of elem_type % u32_mod);
  }

  -- The loop, from element `n` with the indices `idx` on, for as many rounds.
  unfoldable pub elements :
      AdsSymbol → QString → DataType → List ArrayDim → ℕ → ℕ → List ℕ → List AdsSymbol
  elements sym type_name elem_type dims zero n idx = []
  elements sym type_name elem_type dims (suc rounds) n idx =
      element sym type_name elem_type dims n idx
      ∷ elements sym type_name elem_type dims rounds (suc n) (advance (counts_of dims) idx)

  -- The checks on a declaration whose elements are recordable, and the elements.
  unfoldable pub expand_declared :
      AdsSymbol → ArrayTypeInfo → DataType → ℤ → List AdsSymbol × Option ArrayWarning
  expand_declared sym info elem_type max_elements =
      if ltb_ℤ max_elements info.total_elements
      then ([], some too_many_elements)
      else if not (eqb_ℤ (pos sym.size) (info.total_elements *ℤ pos (size_of elem_type)))
      then ([], some size_mismatch)
      else (
        elements sym info.element_type_name elem_type info.dims (pos_part info.total_elements) 0
            (zeros (counts_of info.dims)),
        none,
      )

  unfoldable pub expand_array_symbol : AdsSymbol → ℤ → List AdsSymbol × Option ArrayWarning
  expand_array_symbol sym max_elements = elim (parse_array_type_name qt sym.type_name) [
    | none ↦ ([], none)
    | some info ↦ elim (data_type_from_plc_type_name qt info.element_type_name) [
      | none ↦ ([], some unrecordable_elements)
      | some elem_type ↦ expand_declared sym info elem_type max_elements
    ]
  ]
