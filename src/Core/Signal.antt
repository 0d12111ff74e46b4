-- ===== src/Core/Signal.antt =====
-- `Signal` (core/include/scope/core/Signal.h, core/src/Signal.cpp): parallel vectors of timestamps
-- and of raw value bytes. One call under the mutex is one step. Timestamps are 64-bit signed
-- integers; `sample_rate_hz` is a double, kept as its bit pattern since nothing here computes with it.
pub mod Laws
use scope_analyser.Prelude.{
  ℕ, ◌*◌, ◌≡◌, Bool, true, false, List, [], ◌∷◌, ◌++◌, ◌==◌, length, take, if◌then◌else◌,
}
use scope_analyser.Prelude.Int.{ℤ, pos, negsuc, eqb_ℤ}
use scope_analyser.Prelude.Text.{QString}
use scope_analyser.Core.Types.{DataType, AcquisitionMode, Domain, size_of}

-- `kNoSourceStart`, the least 64-bit integer.
abbrev pub no_source_start : ℤ
no_source_start = negsuc 9223372036854775807

pub record Meta : Type 0 where
  pub name : QString
  pub unit : QString
  pub data_type : DataType
  pub mode : AcquisitionMode
  pub sample_rate_hz : ℕ
  pub parent_task_cycle_us : ℕ
  pub source_symbol : QString
  pub domain : Domain
  pub source_start_ns : ℤ

pub record Signal : Type 0 where
  pub meta : Meta
  pub timestamps : List ℤ
  pub values : List ℕ
  pub sample_count : ℕ

-- The constructor.
abbrev pub new : Meta → Signal
new m = record { meta = m; timestamps = []; values = []; sample_count = 0 }

unfoldable pub set_meta : Meta → Signal → Signal
set_meta m s = record s { meta = m }

abbrev pub bytes_per_sample : Signal → ℕ
bytes_per_sample s = size_of s.meta.data_type

-- `append(timestamps, valueBytes, count)`: the buffers are lists from where the pointers stand on.
unfoldable pub append : List ℤ → List ℕ → ℕ → Signal → Signal
append ts vs count s =
    if count == 0
    then s
    else let timestamps' = s.timestamps ++ take count ts in
      record s {
        timestamps = timestamps';
        values = s.values ++ take (count * bytes_per_sample s) vs;
        sample_count = length timestamps';
      }

-- What `snapshotForRead` returns, with the buffers as lists.
pub record ReadView : Type 0 where
  pub timestamps : List ℤ
  pub values : List ℕ
  pub count : ℕ
  pub data_type : DataType

unfoldable pub snapshot_for_read : Signal → ReadView
snapshot_for_read s = record {
  timestamps = s.timestamps;
  values = s.values;
  count = length s.timestamps;
  data_type = s.meta.data_type;
}

abbrev front_or_zero : List ℤ → ℤ
front_or_zero [] = pos 0
front_or_zero (t ∷ _) = t

unfoldable pub display_origin_ns : Signal → ℤ
display_origin_ns s =
    if eqb_ℤ s.meta.source_start_ns no_source_start
    then front_or_zero s.timestamps
    else s.meta.source_start_ns
