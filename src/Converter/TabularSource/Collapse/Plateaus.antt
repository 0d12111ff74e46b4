-- ===== src/Converter/TabularSource/Collapse/Plateaus.antt =====
-- Each step after the reading of a channel keeps its time axis in order
-- (converter/src/TabularSource.cpp).
use scope_analyser.Prelude.{
  Bool, true, false, not, ◌&&◌, is_empty, List, [], ◌∷◌, ◌++◌, arith, if◌then◌else◌,
}
use scope_analyser.Prelude.Int.{ℤ, pos, ◌-ℤ◌, ◌+ℤ◌, ◌≤ℤ◌, ◌<ℤ◌, int_laws}
use scope_analyser.Converter.TabularSource.{
  ValuePlateauMode, every_sample, first_of_run, last_of_run,
}
use scope_analyser.Converter.TabularSource.Collapse.{
  Sample, RunOps, of_plateau, collapse_plateaus, last_time, reset_time, offset_time, shift_by,
}
use scope_analyser.Converter.TabularSource.Collapse.Laws.{
  Run, samples, map_runs, collapse_plateaus_lem,
}
use scope_analyser.Converter.TabularSource.Collapse.Times.{RisesFrom, Rises, AscendsFrom, Ascends}

module _ {Real : Type 0} where
  AscendsFrom-weaken :
      (t u : ℤ) (xs : List (Sample Real)) → t ≤ℤ u → AscendsFrom u xs → AscendsFrom t xs
  AscendsFrom-weaken t u [] h s = tt
  AscendsFrom-weaken t u ((w, v) ∷ r) h s = (omega (arith, h, s.0), s.1)

  -- The rest of a list starts above the last timestamp before it, which is not below the first.
  AscendsFrom-last :
      (t : ℤ) (xs ys : List (Sample Real))
      → AscendsFrom t (xs ++ ys)
      → (t ≤ℤ last_time t xs) × AscendsFrom (last_time t xs) ys
  AscendsFrom-last t [] ys s = (omega arith, s)
  AscendsFrom-last t ((u, v) ∷ r) ys s =
      let (le, rest) = AscendsFrom-last u r ys s.1 in (omega (arith, le, s.0), rest)

  -- The time of a plateau's sample lies within the plateau.
  of_plateau-time :
      (mode : ValuePlateauMode) (t u : ℤ) (v : Real) (xs ys : List (Sample Real))
      → t <ℤ u
      → AscendsFrom u (xs ++ ys)
      → (t <ℤ (of_plateau mode (u, v) xs).0) × AscendsFrom (of_plateau mode (u, v) xs).0 ys
  unfolding of_plateau
  of_plateau-time last_of_run t u v xs ys h s =
      let (le, rest) = AscendsFrom-last u xs ys s in (omega (arith, le, h), rest)
  of_plateau-time first_of_run t u v xs ys h s =
      let (le, rest) = AscendsFrom-last u xs ys s in (h, AscendsFrom-weaken u _ ys le rest)
  of_plateau-time every_sample t u v xs ys h s =
      let (le, rest) = AscendsFrom-last u xs ys s in (h, AscendsFrom-weaken u _ ys le rest)

  of_plateau-rest :
      (mode : ValuePlateauMode) (u : ℤ) (v : Real) (xs ys : List (Sample Real))
      → AscendsFrom u (xs ++ ys)
      → AscendsFrom (of_plateau mode (u, v) xs).0 ys
  of_plateau-rest mode u v xs ys s =
      (of_plateau-time mode (u -ℤ pos 1) u v xs ys (omega int_laws) s).1

  runs-AscendsFrom :
      (mode : ValuePlateauMode) (t : ℤ) (runs : List (Run Real))
      → AscendsFrom t (samples runs)
      → AscendsFrom t (map_runs (of_plateau mode) runs)
  runs-AscendsFrom mode t [] s = tt
  runs-AscendsFrom mode t (((u, v), q) ∷ runs) s =
      let (above, rest) = of_plateau-time mode t u v q (samples runs) s.0 s.1 in
      (above, runs-AscendsFrom mode (of_plateau mode (u, v) q).0 runs rest)

  runs-Ascends :
      (mode : ValuePlateauMode) (runs : List (Run Real))
      → Ascends (samples runs)
      → Ascends (map_runs (of_plateau mode) runs)
  runs-Ascends mode [] s = tt
  runs-Ascends mode (((u, v), q) ∷ runs) s =
      runs-AscendsFrom mode _ runs (of_plateau-rest mode u v q (samples runs) s)

  pub collapse_plateaus-Ascends :
      (ops : RunOps Real) (mode : ValuePlateauMode) (xs : List (Sample Real))
      → Ascends xs
      → Ascends (collapse_plateaus ops mode xs)
  unfolding collapse_plateaus
  collapse_plateaus-Ascends ops every_sample xs s = s
  collapse_plateaus-Ascends ops first_of_run xs s =
      let (runs, all, _, out) = collapse_plateaus_lem ops first_of_run xs (λ e. cc) in
      rw out (runs-Ascends first_of_run runs (rw all s))
  collapse_plateaus-Ascends ops last_of_run xs s =
      let (runs, all, _, out) = collapse_plateaus_lem ops last_of_run xs (λ e. cc) in
      rw out (runs-Ascends last_of_run runs (rw all s))

  either-Rises :
      (b : Bool) (xs ys : List (Sample Real)) → Rises xs → Rises ys → Rises (if b then xs else ys)
  either-Rises true xs ys h k = h
  either-Rises false xs ys h k = k

  shift_by-RisesFrom :
      (f : ℤ → ℤ) (mono : (a b : ℤ) → a ≤ℤ b → f a ≤ℤ f b) (t : ℤ) (xs : List (Sample Real))
      → RisesFrom t xs
      → RisesFrom (f t) (shift_by f xs)
  shift_by-RisesFrom f mono t [] s = tt
  shift_by-RisesFrom f mono t ((u, v) ∷ r) s = (mono t u s.0, shift_by-RisesFrom f mono u r s.1)

  shift_by-Rises :
      (f : ℤ → ℤ) (mono : (a b : ℤ) → a ≤ℤ b → f a ≤ℤ f b) (xs : List (Sample Real))
      → Rises xs
      → Rises (shift_by f xs)
  shift_by-Rises f mono [] s = tt
  shift_by-Rises f mono ((t, v) ∷ r) s = shift_by-RisesFrom f mono t r s

  pub reset_time-Rises :
      (reset : Bool) (xs : List (Sample Real)) → Rises xs → Rises (reset_time reset xs)
  unfolding reset_time
  reset_time-Rises reset [] s = s
  reset_time-Rises false ((t, v) ∷ r) s = s
  reset_time-Rises true ((t, v) ∷ r) s =
      shift_by-Rises (λ u. u -ℤ t) (λ a b h. omega (int_laws, h)) ((t, v) ∷ r) s

  pub offset_time-Rises :
      (ops : RunOps Real) (seconds : Real) (xs : List (Sample Real))
      → Rises xs
      → Rises (offset_time ops seconds xs)
  unfolding offset_time
  offset_time-Rises ops seconds xs s =
      either-Rises (not (ops.is_zero seconds) && not (is_empty xs)) _ xs
        (shift_by-Rises (λ t. t +ℤ ops.seconds_to_ns seconds) (λ a b h. omega (int_laws, h)) xs s) s
