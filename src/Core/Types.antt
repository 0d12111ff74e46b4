-- ===== src/Core/Types.antt =====
-- Types of core/include/scope/core/Types.h, and their names (toString in core/src/Signal.cpp).
use scope_analyser.Prelude.{ℕ, ◌≤◌, arith}
use scope_analyser.Prelude.Text.{QString, codes}

pub data DataType : Type 0 where
  bool int8 uint8 int16 uint16 int32 uint32 int64 uint64 float32 float64 : DataType

-- `sizeOf`
unfoldable pub size_of : DataType → ℕ
size_of bool = 1
size_of int8 = 1
size_of uint8 = 1
size_of int16 = 2
size_of uint16 = 2
size_of int32 = 4
size_of uint32 = 4
size_of int64 = 8
size_of uint64 = 8
size_of float32 = 4
size_of float64 = 8

-- `toString`: the IEC 61131-3 name of the type.
unfoldable pub to_string : DataType → QString
to_string bool = codes "BOOL"
to_string int8 = codes "SINT"
to_string uint8 = codes "USINT"
to_string int16 = codes "INT"
to_string uint16 = codes "UINT"
to_string int32 = codes "DINT"
to_string uint32 = codes "UDINT"
to_string int64 = codes "LINT"
to_string uint64 = codes "ULINT"
to_string float32 = codes "REAL"
to_string float64 = codes "LREAL"

pub data AcquisitionMode : Type 0 where
  ads_notify oversampled : AcquisitionMode

pub data Domain : Type 0 where
  time frequency : Domain

pub size_of_bounds : (t : DataType) → (1 ≤ size_of t) × (size_of t ≤ 8)
unfolding size_of
size_of_bounds bool = omega arith
size_of_bounds _ = omega arith

-- `toString(AcquisitionMode)`
unfoldable pub mode_to_string : AcquisitionMode → QString
mode_to_string ads_notify = codes "AdsNotify"
mode_to_string oversampled = codes "Oversampled"
