-- ===== src/Ads/TypeTable.antt =====
-- The data-type table: ads/include/scope/ads/AdsTypeTable.h and ads/src/AdsTypeTable.cpp.
pub mod Expand
pub mod Aggregates
pub mod Parse
use scope_analyser.Prelude.{ℕ, Bool, List}
use scope_analyser.Prelude.Dict.{Dict}
use scope_analyser.Prelude.Text.{QString}
use scope_analyser.Ads.TypeNames.{ArrayDim}

-- `AdsTypeMember`; `bit_value` says that the offset counts bits.
pub record AdsTypeMember : Type 0 where
  pub name : QString
  pub type_name : QString
  pub offset : ℕ
  pub size : ℕ
  pub ads_data_type : ℕ
  pub bit_value : Bool

-- `AdsTypeEntry`: an array, a structure, or a scalar or alias.
pub record AdsTypeEntry : Type 0 where
  pub name : QString
  pub element_type_name : QString
  pub size : ℕ
  pub ads_data_type : ℕ
  pub dims : List ArrayDim
  pub members : List AdsTypeMember

-- `QHash<QString, AdsTypeEntry>`, keyed by the upper-case name.
abbrev pub AdsTypeTable : Type 0
AdsTypeTable = Dict AdsTypeEntry
