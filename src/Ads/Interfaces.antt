-- ===== src/Ads/Interfaces.antt =====
-- What ads/ uses of Qt's texts, and the symbols of core/include/scope/core/IAdsClient.h.
use scope_analyser.Prelude.{ℕ, Bool, Option, List}
use scope_analyser.Prelude.Int.{ℤ}
use scope_analyser.Prelude.Text.{QString}
use scope_analyser.Core.Types.{DataType}

-- `toUpper`, `trimmed`, `QString::number`, `toLongLong` (none where it reports failure), `split`,
-- and the captures of the two regular expressions of AdsTypeNames.cpp.
pub record TextOps : Type 0 where
  pub to_upper : QString → QString
  pub trimmed : QString → QString
  pub number : ℤ → QString
  pub to_long_long : QString → Option ℤ
  pub split : ℕ → QString → List QString
  pub match_array : QString → Option (QString × QString)
  pub match_dim : QString → Option (QString × QString)

-- `AdsSymbol`
pub record AdsSymbol : Type 0 where
  pub name : QString
  pub type_name : QString
  pub data_type : DataType
  pub index_group : ℕ
  pub index_offset : ℕ
  pub size : ℕ
  pub array_len : ℕ
  pub comment : QString
  pub ads_data_type : ℕ
  pub unsupported : Bool
