-- ===== src/Converter/TabularSource/Apply/TimeAxis.antt =====
-- The two vectors of an imported channel after they are processed: they are equally long, and the time
-- axis ascends (converter/src/TabularSource.cpp).
use mathlib.Core.Path.{subst}
use scope_analyser.Prelude.{◌≡◌, ◌≢◌, ◌∙◌, ap, sym, List, [], ◌∷◌}
use scope_analyser.Prelude.Int.{ℤ, ◌≤ℤ◌, ◌<ℤ◌}
use scope_analyser.Converter.TabularSource.{ColumnMapping, pass_through}
use scope_analyser.Converter.TabularSource.Collapse.{
  Sample, times, reset_time, offset_time, collapse_duplicates, collapse_plateaus,
}
use scope_analyser.Converter.TabularSource.Collapse.Times.{
  Rises, RisesFrom, Ascends, AscendsFrom, collapse_duplicates-Ascends,
}
use scope_analyser.Converter.TabularSource.Collapse.Plateaus.{
  collapse_plateaus-Ascends, reset_time-Rises, offset_time-Rises,
}
use scope_analyser.Converter.TabularSource.Vectors.{
  Vectors, collapse_duplicates_vectors, collapse_plateaus_vectors,
}
use scope_analyser.Converter.TabularSource.Vectors.Pairing.{
  unzip, paired, length-times, length-values, shifted-unzip,
}
use scope_analyser.Converter.TabularSource.Vectors.Loops.{
  collapse_duplicates-unzip, collapse_plateaus-unzip,
}
use scope_analyser.Converter.TabularSource.Reading.Lengths.{IsPaired}
use scope_analyser.Converter.TabularSource.Apply.{Context, post_process}

-- No timestamp is below the one before it.
abbrev RisingFrom : ℤ → List ℤ → Type 0
RisingFrom t [] = Unit
RisingFrom t (u ∷ r) = (t ≤ℤ u) × RisingFrom u r

abbrev pub IsRising : List ℤ → Type 0
IsRising [] = Unit
IsRising (t ∷ r) = RisingFrom t r

-- Each timestamp is above the one before it.
abbrev AscendingFrom : ℤ → List ℤ → Type 0
AscendingFrom t [] = Unit
AscendingFrom t (u ∷ r) = (t <ℤ u) × AscendingFrom u r

abbrev pub IsAscending : List ℤ → Type 0
IsAscending [] = Unit
IsAscending (t ∷ r) = AscendingFrom t r

module _ {Real : Type 0} where
  rises_from : (t : ℤ) (xs : List (Sample Real)) → RisingFrom t (times xs) → RisesFrom t xs
  rises_from t [] h = tt
  rises_from t ((u, v) ∷ r) h = (h.0, rises_from u r h.1)

  rises : (xs : List (Sample Real)) → IsRising (times xs) → Rises xs
  rises [] h = tt
  rises ((t, v) ∷ r) h = rises_from t r h

  ascends_from : (t : ℤ) (xs : List (Sample Real)) → AscendsFrom t xs → AscendingFrom t (times xs)
  ascends_from t [] h = tt
  ascends_from t ((u, v) ∷ r) h = (h.0, ascends_from u r h.1)

  ascends : (xs : List (Sample Real)) → Ascends xs → IsAscending (times xs)
  ascends [] h = tt
  ascends ((t, v) ∷ r) h = ascends_from t r h

module _ {Real : Type 0} (ctx : Context Real) (y : ColumnMapping Real) where
  abbrev shifted : List (Sample Real) → List (Sample Real)
  shifted xs = offset_time ctx.runs y.time_offset_sec (reset_time y.reset_time_to_zero xs)

  abbrev collapsed : List (Sample Real) → List (Sample Real)
  collapsed xs =
      collapse_plateaus ctx.runs y.collapse_value_plateaus
        (collapse_duplicates ctx.runs y.collapse_duplicates (shifted xs))

  post_process-unzip :
      (xs : List (Sample Real)) → post_process ctx y (unzip xs) ≡ unzip (collapsed xs)
  unfolding post_process
  post_process-unzip xs =
      ap
        (λ v.
          collapse_plateaus_vectors ctx.runs y.collapse_value_plateaus
            (collapse_duplicates_vectors ctx.runs y.collapse_duplicates v))
        (shifted-unzip ctx.runs y.reset_time_to_zero y.time_offset_sec xs)
      ∙ ap (collapse_plateaus_vectors ctx.runs y.collapse_value_plateaus)
          (collapse_duplicates-unzip ctx.runs y.collapse_duplicates (shifted xs))
      ∙ collapse_plateaus-unzip ctx.runs y.collapse_value_plateaus
          (collapse_duplicates ctx.runs y.collapse_duplicates (shifted xs))

  -- Vectors of one length are unzipped from some list.
  zipped : (v : Vectors Real) → IsPaired v → (xs : List (Sample Real)) × (unzip xs ≡ v)
  zipped v h = let (xs, a, b) = paired v.ts v.vs h in (xs, λ i. record { ts = a i; vs = b i })

  -- Both vectors are as long as each other when they are processed.
  pub post_process-IsPaired : (v : Vectors Real) → IsPaired v → IsPaired (post_process ctx y v)
  post_process-IsPaired v h =
      let (xs, e) = zipped v h in
      subst IsPaired (sym (post_process-unzip xs) ∙ ap (post_process ctx y) e)
        (length-times (collapsed xs) ∙ sym (length-values (collapsed xs)))

  -- Where a channel collapses equal timestamps, and of the timestamps that were read, as many as
  -- there are values, none is below the one before it: after the reset, the offset and the two
  -- collapses, each timestamp is above the one before it.
  pub post_process-Ascends :
      (v : Vectors Real)
      → IsPaired v
      → y.collapse_duplicates ≢ pass_through
      → IsRising v.ts
      → IsAscending (post_process ctx y v).ts
  post_process-Ascends v paired_up h s =
      let (xs, e) = zipped v paired_up in
      subst (λ w. IsAscending w.ts) (sym (post_process-unzip xs) ∙ ap (post_process ctx y) e)
        (ascends (collapsed xs) (
          collapse_plateaus-Ascends ctx.runs y.collapse_value_plateaus _ (
            collapse_duplicates-Ascends ctx.runs y.collapse_duplicates _ h (
              offset_time-Rises ctx.runs y.time_offset_sec _ (
                reset_time-Rises y.reset_time_to_zero xs
                  (rises xs (subst (λ w. IsRising w.ts) (sym e) s)))))))
