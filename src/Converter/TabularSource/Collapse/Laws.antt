-- ===== src/Converter/TabularSource/Collapse/Laws.antt =====
-- Runs of equal timestamps and of equal values are each replaced by one sample, and the shifted time
-- axis starts at the offset (converter/src/TabularSource.cpp).
use scope_analyser.Prelude.{
  ℕ, zero, suc, ◌≤◌, ◌≡◌, ◌≢◌, refl, ap, ◌∙◌, Bool, true, false, List, [], ◌∷◌, ◌++◌, length, take,
  drop, All, arith, Bool-cases, inl, inr, take-append-drop, length-drop,
}
use scope_analyser.Converter.TabularSource.{
  CollapseMode, keep_first, keep_last, keep_mean, pass_through, ValuePlateauMode, every_sample,
  first_of_run, last_of_run,
}
use scope_analyser.Converter.TabularSource.Collapse.{
  Sample, RunOps, run_length, collapse_runs, same_time, same_value, of_duplicates, of_plateau,
  collapse_duplicates, collapse_plateaus,
}

-- A run: its first sample and the others.
abbrev pub Run : Type 0 → Type 0
Run Real = Sample Real × List (Sample Real)

module _ {Real : Type 0} where
  abbrev pub samples : List (Run Real) → List (Sample Real)
  samples [] = []
  samples ((x, r) ∷ runs) = x ∷ (r ++ samples runs)

  abbrev pub map_runs :
      (Sample Real → List (Sample Real) → Sample Real) → List (Run Real) → List (Sample Real)
  map_runs f [] = []
  map_runs f ((x, r) ∷ runs) = f x r ∷ map_runs f runs

  module _ (same_run : Sample Real → Sample Real → Bool) where
    -- The next run starts with a sample that does not belong to the run of `x`.
    abbrev pub Differs : Sample Real → List (Run Real) → Type 0
    Differs x [] = Unit
    Differs x ((y, _) ∷ _) = same_run y x ≡ false

    -- Longest runs: each sample of a run belongs to the run of its first, the next run does not.
    abbrev pub AreRuns : List (Run Real) → Type 0
    AreRuns [] = Unit
    AreRuns ((x, r) ∷ runs) = All (λ y. same_run y x ≡ true) r × Differs x runs × AreRuns runs

    take-run_length :
        (x : Sample Real) (r : List (Sample Real))
        → All (λ y. same_run y x ≡ true) (take (run_length same_run x r) r)
    unfolding run_length
    take-run_length x [] = tt
    take-run_length x (y ∷ r) = elim (Bool-cases (same_run y x)) [
      | inl e ↦ rw (e, run_length) (e, take-run_length x r)
      | inr e ↦ rw (e, run_length) tt
    ]

    -- The rest after a run is empty or starts with a sample of another run.
    Other : Sample Real → List (Sample Real) → Type 0
    Other x [] = Unit
    Other x (y ∷ _) = same_run y x ≡ false

    drop-run_length :
        (x : Sample Real) (r : List (Sample Real)) → Other x (drop (run_length same_run x r) r)
    unfolding run_length Other
    drop-run_length x [] = tt
    drop-run_length x (y ∷ r) = elim (Bool-cases (same_run y x)) [
      | inl e ↦ rw (e, run_length) (drop-run_length x r)
      | inr e ↦ rw (e, run_length) e
    ]

    module _ (emit : Sample Real → List (Sample Real) → Sample Real) where
      -- The list splits into longest runs, and `out` has one sample for each.
      abbrev pub Splits : List (Sample Real) → List (Sample Real) → Type 0
      Splits xs out =
          (runs : List (Run Real)) × (samples runs ≡ xs) × AreRuns runs × (out ≡ map_runs emit runs)

      starts : (x : Sample Real) (runs : List (Run Real)) → Other x (samples runs) → Differs x runs
      unfolding Other
      starts x [] o = tt
      starts x (run ∷ runs) o = o

      pub collapse_runs-Splits :
          (fuel : ℕ) (xs : List (Sample Real))
          → length xs ≤ fuel
          → Splits xs (collapse_runs same_run emit fuel xs)
      unfolding collapse_runs
      collapse_runs-Splits zero [] h = ([], refl, tt, refl)
      collapse_runs-Splits zero (x ∷ r) h = absurd (omega arith)
      collapse_runs-Splits (suc fuel) [] h = ([], refl, tt, refl)
      collapse_runs-Splits (suc fuel) (x ∷ r) h =
          let k : ℕ = run_length same_run x r in
          let (runs, all, are, out) =
            collapse_runs-Splits fuel (drop k r) (omega (arith, length-drop k r)) in
          (
            (x, take k r) ∷ runs,
            ap (λ rest. x ∷ (take k r ++ rest)) all ∙ ap (x ∷◌) (take-append-drop k r),
            (take-run_length x r, starts x runs (rw all (drop-run_length x r)), are),
            ap (emit x (take k r) ∷◌) out,
          )

  -- Unless the mode lets all pass: the samples split into the longest runs of equal timestamps, and
  -- the result is one sample for each run, with the first, the last or the mean of its values by
  -- mode.
  pub collapse_duplicates_lem :
      (ops : RunOps Real) (mode : CollapseMode) (xs : List (Sample Real))
      → mode ≢ pass_through
      → Splits same_time (of_duplicates ops mode) xs (collapse_duplicates ops mode xs)
  unfolding collapse_duplicates
  collapse_duplicates_lem ops pass_through xs h = absurd (h refl)
  collapse_duplicates_lem ops keep_first xs h =
      collapse_runs-Splits same_time (of_duplicates ops keep_first) (length xs) xs (omega arith)
  collapse_duplicates_lem ops keep_last xs h =
      collapse_runs-Splits same_time (of_duplicates ops keep_last) (length xs) xs (omega arith)
  collapse_duplicates_lem ops keep_mean xs h =
      collapse_runs-Splits same_time (of_duplicates ops keep_mean) (length xs) xs (omega arith)

  -- Unless the mode lets all pass: the samples split into the longest runs of equal values, and the
  -- result is one sample for each run, with its value and, by mode, its first or its last time.
  pub collapse_plateaus_lem :
      (ops : RunOps Real) (mode : ValuePlateauMode) (xs : List (Sample Real))
      → mode ≢ every_sample
      → Splits (same_value ops) (of_plateau mode) xs (collapse_plateaus ops mode xs)
  unfolding collapse_plateaus
  collapse_plateaus_lem ops every_sample xs h = absurd (h refl)
  collapse_plateaus_lem ops first_of_run xs h =
      collapse_runs-Splits (same_value ops) (of_plateau first_of_run) (length xs) xs (omega arith)
  collapse_plateaus_lem ops last_of_run xs h =
      collapse_runs-Splits (same_value ops) (of_plateau last_of_run) (length xs) xs (omega arith)
