-- ===== src/Converter/TabularSource/Collapse.antt =====
-- A reference for the two vectors of a channel (Vectors.antt models them, converter/src/TabularSource.cpp):
-- one list of pairs, with its shifts and its two collapses as functions on it. Arithmetic on doubles is
-- a parameter of both.
pub mod Laws
pub mod Times
pub mod Plateaus
use scope_analyser.Prelude.{
  ℕ, zero, suc, Bool, true, false, List, [], ◌∷◌, map, length, take, drop, is_empty, if◌then◌else◌,
  not, ◌&&◌,
}
use scope_analyser.Prelude.Int.{ℤ, ◌+ℤ◌, ◌-ℤ◌, eqb_ℤ}
use scope_analyser.Converter.TabularSource.{
  CollapseMode, pass_through, keep_first, keep_last, keep_mean, ValuePlateauMode, every_sample,
  first_of_run, last_of_run,
}

abbrev pub Sample : Type 0 → Type 0
Sample Real = ℤ × Real

-- The operations on doubles that the time axis and the mean of a run take.
pub record RunOps (Real : Type 0) : Type 0 where
  pub zero_real : Real
  pub add : Real → Real → Real
  pub over_count : Real → ℕ → Real
  pub same : Real → Real → Bool
  -- whether an offset in seconds is zero, and its nanoseconds, rounded
  pub is_zero : Real → Bool
  pub seconds_to_ns : Real → ℤ

module _ {Real : Type 0} where
  abbrev pub shift_by : (ℤ → ℤ) → List (Sample Real) → List (Sample Real)
  shift_by f [] = []
  shift_by f ((t, v) ∷ r) = (f t, v) ∷ shift_by f r

  abbrev pub times : List (Sample Real) → List ℤ
  times [] = []
  times ((t, _) ∷ r) = t ∷ times r

  -- `resetTimeToZero`
  unfoldable pub reset_time : Bool → List (Sample Real) → List (Sample Real)
  reset_time reset [] = []
  reset_time reset ((t0, v) ∷ r) =
      if reset then shift_by (λ t. t -ℤ t0) ((t0, v) ∷ r) else (t0, v) ∷ r

  -- `timeOffsetSec`
  unfoldable pub offset_time : RunOps Real → Real → List (Sample Real) → List (Sample Real)
  offset_time ops seconds xs =
      if not (ops.is_zero seconds) && not (is_empty xs)
      then shift_by (λ t. t +ℤ ops.seconds_to_ns seconds) xs
      else xs

  module _ (same_run : Sample Real → Sample Real → Bool) where
    -- The inner loop: how many of the samples that follow belong to the run of `x`.
    unfoldable pub run_length : Sample Real → List (Sample Real) → ℕ
    run_length x [] = 0
    run_length x (y ∷ r) = elim (same_run y x) [ true ↦ suc (run_length x r) | false ↦ 0 ]

    -- The outer loop: one sample for each run, from its first and the others. It drops a sample in
    -- each round, so the length of the list is fuel enough.
    unfoldable pub collapse_runs :
        (Sample Real → List (Sample Real) → Sample Real)
        → ℕ
        → List (Sample Real)
        → List (Sample Real)
    collapse_runs emit zero xs = []
    collapse_runs emit (suc fuel) [] = []
    collapse_runs emit (suc fuel) (x ∷ r) =
        let k = run_length x r in emit x (take k r) ∷ collapse_runs emit fuel (drop k r)

  abbrev pub last_value : Real → List (Sample Real) → Real
  last_value v [] = v
  last_value _ ((_, v) ∷ r) = last_value v r

  abbrev pub last_time : ℤ → List (Sample Real) → ℤ
  last_time t [] = t
  last_time _ ((t, _) ∷ r) = last_time t r

  -- The sum of a run, from the left.
  abbrev pub sum_from : RunOps Real → Real → List (Sample Real) → Real
  sum_from ops acc [] = acc
  sum_from ops acc ((_, v) ∷ r) = sum_from ops (ops.add acc v) r

  abbrev pub same_time : Sample Real → Sample Real → Bool
  same_time (t, _) (u, _) = eqb_ℤ t u

  abbrev pub same_value : RunOps Real → Sample Real → Sample Real → Bool
  same_value ops (_, v) (_, w) = ops.same v w

  -- The sample that stands for a run of equal timestamps.
  unfoldable pub of_duplicates :
      RunOps Real → CollapseMode → Sample Real → List (Sample Real) → Sample Real
  of_duplicates ops keep_last (t, v) r = (t, last_value v r)
  of_duplicates ops keep_mean (t, v) r =
      (t, ops.over_count (sum_from ops ops.zero_real ((t, v) ∷ r)) (suc (length r)))
  of_duplicates ops _ (t, v) r = (t, v)

  -- The sample that stands for a run of equal values.
  unfoldable pub of_plateau : ValuePlateauMode → Sample Real → List (Sample Real) → Sample Real
  of_plateau last_of_run (t, v) r = (last_time t r, v)
  of_plateau _ (t, v) r = (t, v)

  -- `collapseDuplicates`
  unfoldable pub collapse_duplicates :
      RunOps Real → CollapseMode → List (Sample Real) → List (Sample Real)
  collapse_duplicates ops pass_through xs = xs
  collapse_duplicates ops mode xs = collapse_runs same_time (of_duplicates ops mode) (length xs) xs

  -- `collapseValuePlateaus`
  unfoldable pub collapse_plateaus :
      RunOps Real → ValuePlateauMode → List (Sample Real) → List (Sample Real)
  collapse_plateaus ops every_sample xs = xs
  collapse_plateaus ops mode xs = collapse_runs (same_value ops) (of_plateau mode) (length xs) xs
