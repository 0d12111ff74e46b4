-- ===== src/Converter/TabularSource/Vectors/Loops.antt =====
-- The loops over the runs of two vectors, beside those over a list of pairs
-- (converter/src/TabularSource.cpp).
use scope_analyser.Prelude.{
  ℕ, zero, suc, ◌≡◌, refl, ap, sym, ◌≤◌, arith, length-take, Bool, Bool-cases, inl, inr, List, [],
  ◌∷◌, length, take, drop, is_empty, if◌then◌else◌,
}
use scope_analyser.Prelude.Int.{ℤ, eqb_ℤ}
use scope_analyser.Converter.TabularSource.{
  CollapseMode, pass_through, keep_first, keep_last, keep_mean, ValuePlateauMode, every_sample,
  first_of_run, last_of_run,
}
use scope_analyser.Converter.TabularSource.Collapse.{
  Sample, RunOps, times, run_length, collapse_runs, same_time, same_value, of_duplicates,
  of_plateau, collapse_duplicates, collapse_plateaus, last_value, last_time, sum_from,
}
use scope_analyser.Converter.TabularSource.Collapse.Times.{values, of_duplicates-time}
use scope_analyser.Converter.TabularSource.Vectors.{
  run_end, last_of, sum_values, value_of_run, duplicates_loop, collapse_duplicates_vectors,
  time_of_run, plateaus_loop, collapse_plateaus_vectors,
}
use scope_analyser.Converter.TabularSource.Vectors.Pairing.{unzip, length-times, length-values}

module _ {Real : Type 0} where
  times-drop : (k : ℕ) (xs : List (Sample Real)) → drop k (times xs) ≡ times (drop k xs)
  times-drop zero xs = refl
  times-drop (suc k) [] = refl
  times-drop (suc k) (x ∷ r) = times-drop k r

  values-drop : (k : ℕ) (xs : List (Sample Real)) → drop k (values xs) ≡ values (drop k xs)
  values-drop zero xs = refl
  values-drop (suc k) [] = refl
  values-drop (suc k) (x ∷ r) = values-drop k r

  times-take : (k : ℕ) (xs : List (Sample Real)) → take k (times xs) ≡ times (take k xs)
  times-take zero xs = refl
  times-take (suc k) [] = refl
  times-take (suc k) ((t, v) ∷ r) = ap (t ∷◌) (times-take k r)

  values-take : (k : ℕ) (xs : List (Sample Real)) → take k (values xs) ≡ values (take k xs)
  values-take zero xs = refl
  values-take (suc k) [] = refl
  values-take (suc k) ((t, v) ∷ r) = ap (v ∷◌) (values-take k r)

  run_end-times :
      (t : ℤ) (v : Real) (r : List (Sample Real))
      → run_end eqb_ℤ t (times r) ≡ run_length same_time (t, v) r
  unfolding run_end run_length
  run_end-times t v [] = refl
  run_end-times t v ((u, w) ∷ r) = elim (Bool-cases (eqb_ℤ u t)) [
    | inl e ↦ rw (e, run_end, run_length) (ap suc (run_end-times t v r))
    | inr e ↦ rw (e, run_end, run_length) refl
  ]

  run_end-values :
      (ops : RunOps Real) (t : ℤ) (v : Real) (r : List (Sample Real))
      → run_end ops.same v (values r) ≡ run_length (same_value ops) (t, v) r
  unfolding run_end run_length
  run_end-values ops t v [] = refl
  run_end-values ops t v ((u, w) ∷ r) = elim (Bool-cases (ops.same w v)) [
    | inl e ↦ rw (e, run_end, run_length) (ap suc (run_end-values ops t v r))
    | inr e ↦ rw (e, run_end, run_length) refl
  ]

  run_length_le :
      (same : Sample Real → Sample Real → Bool) (x : Sample Real) (r : List (Sample Real))
      → run_length same x r ≤ length r
  unfolding run_length
  run_length_le same x [] = omega arith
  run_length_le same x (y ∷ r) = elim (Bool-cases (same y x)) [
    | inl e ↦ rw (e, run_length) (omega (arith, run_length_le same x r))
    | inr e ↦ rw (e, run_length) (omega arith)
  ]

  last_of-values : (v : Real) (q : List (Sample Real)) → last_of v (values q) ≡ last_value v q
  last_of-values v [] = refl
  last_of-values v ((t, w) ∷ q) = last_of-values w q

  last_of-times : (t : ℤ) (q : List (Sample Real)) → last_of t (times q) ≡ last_time t q
  last_of-times t [] = refl
  last_of-times t ((u, w) ∷ q) = last_of-times u q

  sum_values-values :
      (ops : RunOps Real) (acc : Real) (q : List (Sample Real))
      → sum_values ops acc (values q) ≡ sum_from ops acc q
  sum_values-values ops acc [] = refl
  sum_values-values ops acc ((t, w) ∷ q) = sum_values-values ops (ops.add acc w) q

  value_of_run-values :
      (ops : RunOps Real) (mode : CollapseMode) (t : ℤ) (v : Real) (q : List (Sample Real)) (k : ℕ)
      → length q ≡ k
      → value_of_run ops mode (suc k) (v ∷ values q) ≡ (of_duplicates ops mode (t, v) q).1
  unfolding value_of_run of_duplicates
  value_of_run-values ops pass_through t v q k h = refl
  value_of_run-values ops keep_first t v q k h = refl
  value_of_run-values ops keep_last t v q k h = last_of-values v q
  value_of_run-values ops keep_mean t v q k h =
      λ i. ops.over_count (sum_values-values ops (ops.add ops.zero_real v) q i) (suc (sym h i))

  time_of_run-times :
      (ops : RunOps Real) (mode : ValuePlateauMode) (t : ℤ) (v : Real) (q : List (Sample Real))
      → time_of_run ops mode (t ∷ times q) ≡ (of_plateau mode (t, v) q).0
  unfolding time_of_run of_plateau
  time_of_run-times ops every_sample t v q = refl
  time_of_run-times ops first_of_run t v q = refl
  time_of_run-times ops last_of_run t v q = last_of-times t q

  of_plateau-value :
      (mode : ValuePlateauMode) (t : ℤ) (v : Real) (q : List (Sample Real))
      → (of_plateau mode (t, v) q).1 ≡ v
  unfolding of_plateau
  of_plateau-value every_sample t v q = refl
  of_plateau-value first_of_run t v q = refl
  of_plateau-value last_of_run t v q = refl

  duplicates_loop-unzip :
      (ops : RunOps Real) (mode : CollapseMode) (fuel : ℕ) (xs : List (Sample Real))
      → duplicates_loop ops mode fuel (times xs) (values xs)
        ≡ unzip (collapse_runs same_time (of_duplicates ops mode) fuel xs)
  unfolding duplicates_loop collapse_runs
  duplicates_loop-unzip ops mode zero xs = refl
  duplicates_loop-unzip ops mode (suc fuel) [] = refl
  duplicates_loop-unzip ops mode (suc fuel) ((t, v) ∷ r) =
      let k = run_length same_time (t, v) r in
      let few : length (take k r) ≡ k =
        omega (arith, length-take k r, run_length_le same_time (t, v) r) in
      let ih = duplicates_loop-unzip ops mode fuel (drop k r) in
      rw (run_end-times t v r, times-drop k r, values-drop k r, values-take k r, ih)
        (λ i. record {
          ts =
              sym (of_duplicates-time ops mode t v (take k r)) i
              ∷ times (collapse_runs same_time (of_duplicates ops mode) fuel (drop k r));
          vs =
              value_of_run-values ops mode t v (take k r) k few i
              ∷ values (collapse_runs same_time (of_duplicates ops mode) fuel (drop k r));
        })

  plateaus_loop-unzip :
      (ops : RunOps Real) (mode : ValuePlateauMode) (fuel : ℕ) (xs : List (Sample Real))
      → plateaus_loop ops mode fuel (times xs) (values xs)
        ≡ unzip (collapse_runs (same_value ops) (of_plateau mode) fuel xs)
  unfolding plateaus_loop collapse_runs
  plateaus_loop-unzip ops mode zero xs = refl
  plateaus_loop-unzip ops mode (suc fuel) [] = refl
  plateaus_loop-unzip ops mode (suc fuel) ((t, v) ∷ r) =
      let k = run_length (same_value ops) (t, v) r in
      let ih = plateaus_loop-unzip ops mode fuel (drop k r) in
      rw (run_end-values ops t v r, times-drop k r, values-drop k r, times-take k r, ih)
        (λ i. record {
          ts =
              time_of_run-times ops mode t v (take k r) i
              ∷ times (collapse_runs (same_value ops) (of_plateau mode) fuel (drop k r));
          vs =
              sym (of_plateau-value mode t v (take k r)) i
              ∷ values (collapse_runs (same_value ops) (of_plateau mode) fuel (drop k r));
        })

  -- The rounds of the loop, as many as there are samples.
  all_duplicates :
      (ops : RunOps Real) (mode : CollapseMode) (xs : List (Sample Real))
      → (if is_empty (times xs)
          then unzip xs
          else duplicates_loop ops mode (length (times xs)) (times xs) (values xs))
        ≡ unzip (collapse_runs same_time (of_duplicates ops mode) (length xs) xs)
  unfolding collapse_runs
  all_duplicates ops mode [] = refl
  all_duplicates ops mode (x ∷ r) =
      rw (length-times r) (duplicates_loop-unzip ops mode (suc (length r)) (x ∷ r))

  pub collapse_duplicates-unzip :
      (ops : RunOps Real) (mode : CollapseMode) (xs : List (Sample Real))
      → collapse_duplicates_vectors ops mode (unzip xs) ≡ unzip (collapse_duplicates ops mode xs)
  unfolding collapse_duplicates collapse_duplicates_vectors
  collapse_duplicates-unzip ops pass_through xs = refl
  collapse_duplicates-unzip ops keep_first xs = all_duplicates ops keep_first xs
  collapse_duplicates-unzip ops keep_last xs = all_duplicates ops keep_last xs
  collapse_duplicates-unzip ops keep_mean xs = all_duplicates ops keep_mean xs

  all_plateaus :
      (ops : RunOps Real) (mode : ValuePlateauMode) (xs : List (Sample Real))
      → (if is_empty (values xs)
          then unzip xs
          else plateaus_loop ops mode (length (values xs)) (times xs) (values xs))
        ≡ unzip (collapse_runs (same_value ops) (of_plateau mode) (length xs) xs)
  unfolding collapse_runs
  all_plateaus ops mode [] = refl
  all_plateaus ops mode (x ∷ r) =
      rw (length-values r) (plateaus_loop-unzip ops mode (suc (length r)) (x ∷ r))

  pub collapse_plateaus-unzip :
      (ops : RunOps Real) (mode : ValuePlateauMode) (xs : List (Sample Real))
      → collapse_plateaus_vectors ops mode (unzip xs) ≡ unzip (collapse_plateaus ops mode xs)
  unfolding collapse_plateaus collapse_plateaus_vectors
  collapse_plateaus-unzip ops every_sample xs = refl
  collapse_plateaus-unzip ops first_of_run xs = all_plateaus ops first_of_run xs
  collapse_plateaus-unzip ops last_of_run xs = all_plateaus ops last_of_run xs
