-- ===== src/Ads/TypeNames.antt =====
-- ads/include/scope/ads/AdsTypeNames.h and ads/src/AdsTypeNames.cpp. The running product of
-- `long long` wraps at 64 bits before it is tested. The count of one dimension is an integer: its own
-- overflow, of bounds that lie 2^63 apart, is not modelled.
pub mod Odometer
pub mod Declaration
pub mod ArraySymbol
use scope_analyser.Prelude.{
  ℕ, ◌+◌, ◌*◌, Bool, true, false, ◌||◌, Option, none, some, List, [], ◌∷◌, ◌++◌, ◌==◌, is_empty,
  if◌then◌else◌,
}
use scope_analyser.Prelude.Int.{ℤ, pos, negsuc, ◌+ℤ◌, ◌-ℤ◌, ltb_ℤ, leb_ℤ}
use scope_analyser.Prelude.Words.{mul64}
use scope_analyser.Prelude.Text.{QString, codes, eq_text}
use scope_analyser.Core.Types.{
  DataType, bool, int8, uint8, int16, uint16, int32, uint32, int64, uint64, float32, float64,
}
use scope_analyser.Ads.Interfaces.{TextOps}

-- `mapAdsDataTypeOptShared`
unfoldable pub map_ads_data_type : ℕ → Option DataType
map_ads_data_type adst =
    if adst == 33
    then some bool
    else if adst == 16
    then some int8
    else if adst == 17
    then some uint8
    else if adst == 2
    then some int16
    else if adst == 18
    then some uint16
    else if adst == 3
    then some int32
    else if adst == 19
    then some uint32
    else if adst == 20
    then some int64
    else if adst == 21
    then some uint64
    else if adst == 4
    then some float32
    else if adst == 5
    then some float64
    else none

-- The chain of comparisons of `dataTypeFromPlcTypeName`, on the trimmed upper-case name.
unfoldable pub elementary_type : QString → Option DataType
elementary_type t =
    if eq_text t (codes "BOOL")
    then some bool
    else if eq_text t (codes "SINT")
    then some int8
    else if eq_text t (codes "USINT") || eq_text t (codes "BYTE")
    then some uint8
    else if eq_text t (codes "INT")
    then some int16
    else if eq_text t (codes "UINT") || eq_text t (codes "WORD")
    then some uint16
    else if eq_text t (codes "DINT")
    then some int32
    else if eq_text t (codes "UDINT") || eq_text t (codes "DWORD")
    then some uint32
    else if eq_text t (codes "LINT")
    then some int64
    else if eq_text t (codes "ULINT") || eq_text t (codes "LWORD")
    then some uint64
    else if eq_text t (codes "REAL")
    then some float32
    else if eq_text t (codes "LREAL")
    then some float64
    else none

pub record ArrayDim : Type 0 where
  pub lower : ℤ
  pub upper : ℤ

-- `count()`
unfoldable pub count : ArrayDim → ℤ
unfolding ◌+ℤ◌ ◌-ℤ◌
count d = d.upper -ℤ d.lower +ℤ pos 1

pub record ArrayTypeInfo : Type 0 where
  pub dims : List ArrayDim
  pub element_type_name : QString
  pub total_elements : ℤ

module _ (qt : TextOps) where
  unfoldable pub data_type_from_plc_type_name : QString → Option DataType
  unfolding elementary_type
  data_type_from_plc_type_name type_name = elementary_type (qt.to_upper (qt.trimmed type_name))

  infixl 5 ◌>>=◌
  abbrev ◌>>=◌ : {A B : Type 0} → Option A → (A → Option B) → Option B
  none >>= f = none
  some a >>= f = f a

  -- One part of the bounds, "lower .. upper".
  unfoldable pub parse_dim : QString → Option ArrayDim
  parse_dim part = do
    (lo, hi) ← qt.match_dim part
    lower ← qt.to_long_long lo
    upper ← qt.to_long_long hi
    if ltb_ℤ upper lower then none else some (record { lower = lower; upper = upper })

  -- The loop over the parts: the dimensions, and the product of their counts, which wraps.
  unfoldable pub parse_dims : List QString → List ArrayDim → ℤ → Option (List ArrayDim × ℤ)
  parse_dims [] dims total = some (dims, total)
  parse_dims (part ∷ r) dims total = do
    d ← parse_dim part
    if leb_ℤ (mul64 total (count d)) (pos 0)
        then none
        else parse_dims r (dims ++ d ∷ []) (mul64 total (count d))

  -- The rest of `parseArrayTypeName`, on the two captures of the declaration.
  unfoldable pub declared_from : QString → QString → Option ArrayTypeInfo
  declared_from bounds element =
      if is_empty (qt.trimmed element)
      then none
      else elim (parse_dims (qt.split b',' bounds) [] (pos 1)) [
        | none ↦ none
        | some (dims, total) ↦
            if is_empty dims
            then none
            else some (record {
              dims = dims;
              element_type_name = qt.trimmed element;
              total_elements = total;
            })
      ]

  unfoldable pub parse_array_type_name : QString → Option ArrayTypeInfo
  parse_array_type_name type_name = do
    (bounds, element) ← qt.match_array type_name
    declared_from bounds element
