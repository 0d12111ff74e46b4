-- ===== src/Converter/TabularSource/Collapse/Times.antt =====
-- The time axis of a channel: where it starts after the shifts, and that it ascends once runs of equal
-- timestamps are collapsed (converter/src/TabularSource.cpp).
use scope_analyser.Prelude.{
  ◌≡◌, ◌≢◌, refl, ap, sym, ◌∙◌, Bool, true, false, not, ◌&&◌, is_empty, List, [], ◌∷◌, ◌++◌, arith,
  map, if◌then◌else◌,
}
use scope_analyser.Prelude.Int.{ℤ, pos, ◌-ℤ◌, ◌+ℤ◌, ◌≤ℤ◌, ◌<ℤ◌, eqb_ℤ, int_laws}
use scope_analyser.Converter.TabularSource.{
  CollapseMode, keep_first, keep_last, keep_mean, pass_through,
}
use scope_analyser.Converter.TabularSource.Collapse.{
  Sample, times, RunOps, same_time, of_duplicates, collapse_duplicates, reset_time, offset_time,
  shift_by,
}
use scope_analyser.Converter.TabularSource.Collapse.Laws.{
  Run, samples, map_runs, AreRuns, collapse_duplicates_lem,
}

above : (t u : ℤ) → t ≤ℤ u → eqb_ℤ u t ≡ false → t <ℤ u
above t u h e = ground arith

to_offset : (t off : ℤ) → t -ℤ t +ℤ off ≡ off
to_offset t off = omega int_laws

plus_zero : (t : ℤ) → t +ℤ pos 0 ≡ t
plus_zero t = omega int_laws

module _ {Real : Type 0} where
  -- No timestamp is below the one before it, the first not below `t`.
  abbrev pub RisesFrom : ℤ → List (Sample Real) → Type 0
  RisesFrom t [] = Unit
  RisesFrom t ((u, _) ∷ r) = (t ≤ℤ u) × RisesFrom u r

  abbrev pub Rises : List (Sample Real) → Type 0
  Rises [] = Unit
  Rises ((t, _) ∷ r) = RisesFrom t r

  -- Each timestamp is above the one before it, the first above `t`.
  abbrev pub AscendsFrom : ℤ → List (Sample Real) → Type 0
  AscendsFrom t [] = Unit
  AscendsFrom t ((u, _) ∷ r) = (t <ℤ u) × AscendsFrom u r

  abbrev pub Ascends : List (Sample Real) → Type 0
  Ascends [] = Unit
  Ascends ((t, _) ∷ r) = AscendsFrom t r

  RisesFrom-weaken : (t u : ℤ) (xs : List (Sample Real)) → t ≤ℤ u → RisesFrom u xs → RisesFrom t xs
  RisesFrom-weaken t u [] h s = tt
  RisesFrom-weaken t u ((w, v) ∷ r) h s = (omega (arith, h, s.0), s.1)

  RisesFrom-append : (t : ℤ) (xs ys : List (Sample Real)) → RisesFrom t (xs ++ ys) → RisesFrom t ys
  RisesFrom-append t [] ys s = s
  RisesFrom-append t ((u, v) ∷ r) ys s = RisesFrom-weaken t u ys s.0 (RisesFrom-append u r ys s.1)

  pub of_duplicates-time :
      (ops : RunOps Real) (mode : CollapseMode) (t : ℤ) (v : Real) (r : List (Sample Real))
      → (of_duplicates ops mode (t, v) r).0 ≡ t
  unfolding of_duplicates
  of_duplicates-time ops pass_through t v r = refl
  of_duplicates-time ops keep_first t v r = refl
  of_duplicates-time ops keep_last t v r = refl
  of_duplicates-time ops keep_mean t v r = refl

  runs-Ascends :
      (ops : RunOps Real) (mode : CollapseMode) (t : ℤ) (v : Real) (r : List (Sample Real))
      (runs : List (Run Real))
      → RisesFrom t (r ++ samples runs)
      → AreRuns same_time (((t, v), r) ∷ runs)
      → AscendsFrom t (map_runs (of_duplicates ops mode) runs)
  runs-Ascends ops mode t v r [] s a = tt
  runs-Ascends ops mode t v r (((u, w), q) ∷ runs) s (all, differs, are) =
      let rises = RisesFrom-append t r (samples (((u, w), q) ∷ runs)) s in
      rw (of_duplicates-time ops mode u w q)
        (above t u rises.0 differs, runs-Ascends ops mode u w q runs rises.1 are)

  map-Ascends :
      (ops : RunOps Real) (mode : CollapseMode) (runs : List (Run Real))
      → Rises (samples runs)
      → AreRuns same_time runs
      → Ascends (map_runs (of_duplicates ops mode) runs)
  map-Ascends ops mode [] s a = tt
  map-Ascends ops mode (((t, v), r) ∷ runs) s a =
      rw (of_duplicates-time ops mode t v r) (runs-Ascends ops mode t v r runs s a)

  -- Where no timestamp is below the one before it: with any mode but the one that lets all pass,
  -- each timestamp of the result is above the one before it.
  pub collapse_duplicates-Ascends :
      (ops : RunOps Real) (mode : CollapseMode) (xs : List (Sample Real))
      → mode ≢ pass_through
      → Rises xs
      → Ascends (collapse_duplicates ops mode xs)
  collapse_duplicates-Ascends ops mode xs h s =
      let (runs, all, are, out) = collapse_duplicates_lem ops mode xs h in
      rw out (map-Ascends ops mode runs (rw all s) are)

  -- The nanoseconds that the offset adds.
  abbrev pub offset_of : RunOps Real → Real → ℤ
  offset_of ops seconds = if ops.is_zero seconds then pos 0 else ops.seconds_to_ns seconds

  abbrev pub values : List (Sample Real) → List Real
  values [] = []
  values ((_, v) ∷ r) = v ∷ values r

  pub times-shift_by :
      (f : ℤ → ℤ) (xs : List (Sample Real)) → times (shift_by f xs) ≡ map f (times xs)
  times-shift_by f [] = refl
  times-shift_by f ((t, v) ∷ r) = ap (f t ∷◌) (times-shift_by f r)

  pub values-shift_by : (f : ℤ → ℤ) (xs : List (Sample Real)) → values (shift_by f xs) ≡ values xs
  values-shift_by f [] = refl
  values-shift_by f ((t, v) ∷ r) = ap (v ∷◌) (values-shift_by f r)

  shift_zero : (xs : List (Sample Real)) → shift_by (λ t. t +ℤ pos 0) xs ≡ xs
  shift_zero [] = refl
  shift_zero ((t, v) ∷ r) = λ i. (plus_zero t i, v) ∷ shift_zero r i

  shift_twice :
      (f g : ℤ → ℤ) (xs : List (Sample Real))
      → shift_by g (shift_by f xs) ≡ shift_by (λ t. g (f t)) xs
  shift_twice f g [] = refl
  shift_twice f g ((t, v) ∷ r) = ap ((g (f t), v) ∷◌) (shift_twice f g r)

  shift_unless :
      (skip : Bool) (d : ℤ) (xs : List (Sample Real))
      → (if not skip && not (is_empty xs) then shift_by (λ t. t +ℤ d) xs else xs)
        ≡ shift_by (λ t. t +ℤ (if skip then pos 0 else d)) xs
  shift_unless true d xs = sym (shift_zero xs)
  shift_unless false d [] = refl
  shift_unless false d (x ∷ r) = refl

  offset_time_lem :
      (ops : RunOps Real) (seconds : Real) (xs : List (Sample Real))
      → offset_time ops seconds xs ≡ shift_by (λ t. t +ℤ offset_of ops seconds) xs
  unfolding offset_time
  offset_time_lem ops seconds xs = shift_unless (ops.is_zero seconds) (ops.seconds_to_ns seconds) xs

  -- With the reset on: the first sample stands at the offset in nanoseconds, 0 for an offset that is
  -- zero, the others as far behind it as they were, and the values are unchanged.
  pub offset_time-reset_time :
      (ops : RunOps Real) (seconds : Real) (t0 : ℤ) (v : Real) (r : List (Sample Real))
      → (times (offset_time ops seconds (reset_time true ((t0, v) ∷ r)))
          ≡ offset_of ops seconds ∷ map (λ t. t -ℤ t0 +ℤ offset_of ops seconds) (times r))
        × (values (offset_time ops seconds (reset_time true ((t0, v) ∷ r))) ≡ v ∷ values r)
  unfolding reset_time
  offset_time-reset_time ops seconds t0 v r =
      rw (offset_time_lem ops seconds (reset_time true ((t0, v) ∷ r))) (
        λ i.
            to_offset t0 (offset_of ops seconds) i
            ∷ (ap times (shift_twice (λ t. t -ℤ t0) (λ t. t +ℤ offset_of ops seconds) r)
                  ∙ times-shift_by (λ t. t -ℤ t0 +ℤ offset_of ops seconds) r)
                i,
        ap (v ∷◌) (
            values-shift_by (λ t. t +ℤ offset_of ops seconds) (shift_by (λ t. t -ℤ t0) r)
            ∙ values-shift_by (λ t. t -ℤ t0) r),
      )
