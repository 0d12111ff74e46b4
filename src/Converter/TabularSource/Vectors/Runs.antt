-- ===== src/Converter/TabularSource/Vectors/Runs.antt =====
-- What the two vectors hold once runs of equal timestamps are collapsed
-- (converter/src/TabularSource.cpp).
use mathlib.Core.Path.{subst}
use mathlib.Core.List.{foldl}
use scope_analyser.Prelude.{
  suc, ◌≡◌, ◌≢◌, ◌∙◌, refl, ap, sym, some, List, [], ◌∷◌, length, get_elem?,
}
use scope_analyser.Prelude.Int.{ℤ}
use scope_analyser.Converter.TabularSource.{
  CollapseMode, pass_through, keep_first, keep_last, keep_mean,
}
use scope_analyser.Converter.TabularSource.Collapse.{
  Sample, RunOps, times, same_time, of_duplicates, last_value, sum_from, collapse_duplicates,
}
use scope_analyser.Converter.TabularSource.Collapse.Laws.{
  Run, samples, map_runs, AreRuns, collapse_duplicates_lem,
}
use scope_analyser.Converter.TabularSource.Collapse.Times.{values, of_duplicates-time}
use scope_analyser.Converter.TabularSource.Vectors.{Vectors, collapse_duplicates_vectors}
use scope_analyser.Converter.TabularSource.Vectors.Pairing.{unzip, paired}
use scope_analyser.Converter.TabularSource.Vectors.Loops.{collapse_duplicates-unzip}

module _ {Real : Type 0} (ops : RunOps Real) where
  -- A value stands for a run: it is the value of the run's first sample, that of its last, or the mean
  -- of them all.
  abbrev pub IsValue : CollapseMode → Run Real → Real → Type 0
  IsValue keep_first ((t, v), r) w = w ≡ v
  IsValue keep_last (x, r) w = get_elem? (values (x ∷ r)) (length r) ≡ some w
  IsValue keep_mean (x, r) w =
      w ≡ ops.over_count (foldl ops.add ops.zero_real (values (x ∷ r))) (length (x ∷ r))
  IsValue pass_through _ _ = ⊥

  -- One timestamp and one value for each run, in order: the run's own timestamp, and a value that
  -- stands for it.
  abbrev pub AreCollapsed : CollapseMode → List (Run Real) → List ℤ → List Real → Type 0
  AreCollapsed mode [] [] [] = Unit
  AreCollapsed mode (((t, v), r) ∷ runs) (u ∷ ts) (w ∷ vs) =
      (u ≡ t) × IsValue mode ((t, v), r) w × AreCollapsed mode runs ts vs
  AreCollapsed mode _ _ _ = ⊥

  last_found :
      (x : Sample Real) (r : List (Sample Real))
      → get_elem? (values (x ∷ r)) (length r) ≡ some (last_value x.1 r)
  last_found (t, v) [] = refl
  last_found (t, v) (y ∷ r) = last_found y r

  sum_from-foldl :
      (acc : Real) (r : List (Sample Real)) → sum_from ops acc r ≡ foldl ops.add acc (values r)
  sum_from-foldl acc [] = refl
  sum_from-foldl acc ((t, v) ∷ r) = sum_from-foldl (ops.add acc v) r

  of_duplicates-IsValue :
      (mode : CollapseMode) (t : ℤ) (v : Real) (r : List (Sample Real))
      → mode ≢ pass_through
      → IsValue mode ((t, v), r) (of_duplicates ops mode (t, v) r).1
  unfolding of_duplicates
  of_duplicates-IsValue pass_through t v r h = absurd (h refl)
  of_duplicates-IsValue keep_first t v r h = refl
  of_duplicates-IsValue keep_last t v r h = last_found (t, v) r
  of_duplicates-IsValue keep_mean t v r h =
      ap (λ s. ops.over_count s (suc (length r))) (sum_from-foldl ops.zero_real ((t, v) ∷ r))

  map_runs-AreCollapsed :
      (mode : CollapseMode) (runs : List (Run Real))
      → mode ≢ pass_through
      → AreCollapsed mode runs
          (times (map_runs (of_duplicates ops mode) runs))
          (values (map_runs (of_duplicates ops mode) runs))
  map_runs-AreCollapsed mode [] h = tt
  map_runs-AreCollapsed mode (((t, v), r) ∷ runs) h = (
    of_duplicates-time ops mode t v r,
    of_duplicates-IsValue mode t v r h,
    map_runs-AreCollapsed mode runs h,
  )

  -- Both vectors of a collapsed list.
  collapsed_runs :
      (mode : CollapseMode) (xs : List (Sample Real))
      → mode ≢ pass_through
      → (runs : List (Run Real)) × (samples runs ≡ xs)
        × AreRuns same_time runs
        × AreCollapsed mode runs
            (times (collapse_duplicates ops mode xs))
            (values (collapse_duplicates ops mode xs))
  collapsed_runs mode xs h =
      let (runs, all, are, out) = collapse_duplicates_lem ops mode xs h in
      (
        runs,
        all,
        are,
        subst (λ l. AreCollapsed mode runs (times l) (values l)) (sym out)
            (map_runs-AreCollapsed mode runs h),
      )

  -- For two vectors of one length, and a mode that does not let all pass: their samples split into
  -- the longest runs of equal timestamps, and for each run, in order, the new vectors have the run's
  -- timestamp and, by mode, the value of its first sample, that of its last, or the sum of its
  -- values from the left over their number.
  pub collapse_duplicates_vectors_lem :
      (mode : CollapseMode) (v : Vectors Real)
      → length v.ts ≡ length v.vs
      → mode ≢ pass_through
      → (runs : List (Run Real)) × (times (samples runs) ≡ v.ts)
        × (values (samples runs) ≡ v.vs)
        × AreRuns same_time runs
        × AreCollapsed mode runs
            (collapse_duplicates_vectors ops mode v).ts
            (collapse_duplicates_vectors ops mode v).vs
  collapse_duplicates_vectors_lem mode v even h =
      let (xs, a, b) = paired v.ts v.vs even in
      let (runs, all, are, out) = collapsed_runs mode xs h in
      let same : unzip (collapse_duplicates ops mode xs) ≡ collapse_duplicates_vectors ops mode v =
        sym (collapse_duplicates-unzip ops mode xs)
        ∙ (λ i. collapse_duplicates_vectors ops mode (record { ts = a i; vs = b i })) in
      (
        runs,
        ap times all ∙ a,
        ap values all ∙ b,
        are,
        subst (λ (w : Vectors Real). AreCollapsed mode runs w.ts w.vs) same out,
      )
