-- ===== src/Converter/TabularSource/Vectors.antt =====
-- The two vectors of a channel, its timestamps and its values, after they are read
-- (`TabularSource::apply`, converter/src/TabularSource.cpp): the shift of the time axis, and one sample
-- in place of each run of equal timestamps and of each run of equal values. A place that a vector
-- lacks, where the source's behaviour is undefined, reads as zero.
pub mod Pairing
pub mod Loops
pub mod Runs
use scope_analyser.Prelude.{
  ℕ, zero, suc, Bool, true, false, not, ◌&&◌, List, [], ◌∷◌, map, length, take, drop, is_empty,
  if◌then◌else◌,
}
use scope_analyser.Prelude.Int.{ℤ, pos, ◌+ℤ◌, ◌-ℤ◌, eqb_ℤ}
use scope_analyser.Converter.TabularSource.{
  CollapseMode, pass_through, keep_first, keep_last, keep_mean, ValuePlateauMode, every_sample,
  first_of_run, last_of_run,
}
use scope_analyser.Converter.TabularSource.Collapse.{RunOps}

-- `ts` and `vs`
pub record Vectors (Real : Type 0) : Type 0 where
  pub ts : List ℤ
  pub vs : List Real

-- `resetTimeToZero`
unfoldable pub reset_ts : Bool → List ℤ → List ℤ
reset_ts reset [] = []
reset_ts reset (t0 ∷ r) = if reset then map (λ t. t -ℤ t0) (t0 ∷ r) else t0 ∷ r

-- The inner loops: how many of the elements that follow `x` are the same.
unfoldable pub run_end : {A : Type 0} → (A → A → Bool) → A → List A → ℕ
run_end same x [] = 0
run_end same x (y ∷ r) = elim (same y x) [ true ↦ suc (run_end same x r) | false ↦ 0 ]

-- The last of a run, which starts with `x`.
abbrev pub last_of : {A : Type 0} → A → List A → A
last_of x [] = x
last_of x (y ∷ r) = last_of y r

module _ {Real : Type 0} (ops : RunOps Real) where
  -- `timeOffsetSec`
  unfoldable pub offset_ts : Real → List ℤ → List ℤ
  offset_ts seconds ts =
      if not (ops.is_zero seconds) && not (is_empty ts)
      then map (λ t. t +ℤ ops.seconds_to_ns seconds) ts
      else ts

  -- The loop of the mean, from the left.
  abbrev pub sum_values : Real → List Real → Real
  sum_values acc [] = acc
  sum_values acc (v ∷ r) = sum_values (ops.add acc v) r

  -- The value of a run of `count` samples.
  unfoldable pub value_of_run : CollapseMode → ℕ → List Real → Real
  value_of_run keep_last count [] = ops.zero_real
  value_of_run keep_last count (v ∷ r) = last_of v r
  value_of_run keep_mean count vs = ops.over_count (sum_values ops.zero_real vs) count
  value_of_run _ count [] = ops.zero_real
  value_of_run _ count (v ∷ r) = v

  -- The loop over the runs of equal timestamps. Each round drops a timestamp, so as many rounds as
  -- there are timestamps are enough.
  unfoldable pub duplicates_loop : CollapseMode → ℕ → List ℤ → List Real → Vectors Real
  duplicates_loop mode zero ts vs = record { ts = []; vs = [] }
  duplicates_loop mode (suc fuel) [] vs = record { ts = []; vs = [] }
  duplicates_loop mode (suc fuel) (t ∷ ts) vs =
      let k = run_end eqb_ℤ t ts in
      let rest = duplicates_loop mode fuel (drop k ts) (drop (suc k) vs) in
      record { ts = t ∷ rest.ts; vs = value_of_run mode (suc k) (take (suc k) vs) ∷ rest.vs }

  -- `collapseDuplicates`
  unfoldable pub collapse_duplicates_vectors : CollapseMode → Vectors Real → Vectors Real
  collapse_duplicates_vectors pass_through v = v
  collapse_duplicates_vectors mode v =
      if is_empty v.ts then v else duplicates_loop mode (length v.ts) v.ts v.vs

  -- The timestamp of a run of equal values.
  unfoldable pub time_of_run : ValuePlateauMode → List ℤ → ℤ
  time_of_run mode [] = pos 0
  time_of_run last_of_run (t ∷ r) = last_of t r
  time_of_run _ (t ∷ r) = t

  -- The loop over the runs of equal values.
  unfoldable pub plateaus_loop : ValuePlateauMode → ℕ → List ℤ → List Real → Vectors Real
  plateaus_loop mode zero ts vs = record { ts = []; vs = [] }
  plateaus_loop mode (suc fuel) ts [] = record { ts = []; vs = [] }
  plateaus_loop mode (suc fuel) ts (v ∷ vs) =
      let k = run_end ops.same v vs in
      let rest = plateaus_loop mode fuel (drop (suc k) ts) (drop k vs) in
      record { ts = time_of_run mode (take (suc k) ts) ∷ rest.ts; vs = v ∷ rest.vs }

  -- `collapseValuePlateaus`
  unfoldable pub collapse_plateaus_vectors : ValuePlateauMode → Vectors Real → Vectors Real
  collapse_plateaus_vectors every_sample v = v
  collapse_plateaus_vectors mode v =
      if is_empty v.vs then v else plateaus_loop mode (length v.vs) v.ts v.vs
