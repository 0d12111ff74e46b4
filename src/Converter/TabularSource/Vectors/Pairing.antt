-- ===== src/Converter/TabularSource/Vectors/Pairing.antt =====
-- The two vectors beside the list of pairs (converter/src/TabularSource.cpp).
use scope_analyser.Prelude.{
  suc, ◌≡◌, ◌∙◌, refl, ap, sym, arith, Bool, true, false, not, ◌&&◌, Bool-cases, inl, inr, List, [],
  ◌∷◌, length, is_empty,
}
use scope_analyser.Prelude.Int.{ℤ, ◌+ℤ◌, ◌-ℤ◌}
use scope_analyser.Converter.TabularSource.Collapse.{Sample, RunOps, times, reset_time, offset_time}
use scope_analyser.Converter.TabularSource.Collapse.Times.{values, times-shift_by, values-shift_by}
use scope_analyser.Converter.TabularSource.Vectors.{Vectors, reset_ts, offset_ts}

module _ {Real : Type 0} where
  -- The two vectors of a list of pairs.
  abbrev pub unzip : List (Sample Real) → Vectors Real
  unzip xs = record { ts = times xs; vs = values xs }

  -- Vectors of one length are those of a list of pairs.
  pub paired :
      (ts : List ℤ) (vs : List Real)
      → length ts ≡ length vs
      → (xs : List (Sample Real)) × (times xs ≡ ts) × (values xs ≡ vs)
  paired [] [] h = ([], refl, refl)
  paired [] (v ∷ vs) h = cc
  paired (t ∷ ts) [] h = cc
  paired (t ∷ ts) (v ∷ vs) h =
      let (xs, a, b) = paired ts vs (cc) in ((t, v) ∷ xs, ap (t ∷◌) a, ap (v ∷◌) b)

  pub length-times : (xs : List (Sample Real)) → length (times xs) ≡ length xs
  length-times [] = refl
  length-times (x ∷ r) = ap suc (length-times r)

  pub length-values : (xs : List (Sample Real)) → length (values xs) ≡ length xs
  length-values [] = refl
  length-values (x ∷ r) = ap suc (length-values r)

  reset_ts-times :
      (b : Bool) (xs : List (Sample Real)) → reset_ts b (times xs) ≡ times (reset_time b xs)
  unfolding reset_ts reset_time
  reset_ts-times b [] = refl
  reset_ts-times true ((t, v) ∷ r) = sym (times-shift_by (λ u. u -ℤ t) ((t, v) ∷ r))
  reset_ts-times false ((t, v) ∷ r) = refl

  values-reset_time : (b : Bool) (xs : List (Sample Real)) → values (reset_time b xs) ≡ values xs
  unfolding reset_time
  values-reset_time b [] = refl
  values-reset_time true (x ∷ r) = values-shift_by _ (x ∷ r)
  values-reset_time false (x ∷ r) = refl

  offset_ts-times :
      (ops : RunOps Real) (seconds : Real) (xs : List (Sample Real))
      → offset_ts ops seconds (times xs) ≡ times (offset_time ops seconds xs)
  unfolding offset_ts offset_time
  offset_ts-times ops seconds [] = ground arith
  offset_ts-times ops seconds ((t, v) ∷ r) = elim (Bool-cases (ops.is_zero seconds)) [
    | inl e ↦ rw e refl
    | inr e ↦ rw e (sym (times-shift_by (λ u. u +ℤ ops.seconds_to_ns seconds) ((t, v) ∷ r)))
  ]

  values-offset_time :
      (ops : RunOps Real) (seconds : Real) (xs : List (Sample Real))
      → values (offset_time ops seconds xs) ≡ values xs
  unfolding offset_time
  values-offset_time ops seconds xs =
      elim (Bool-cases (not (ops.is_zero seconds) && not (is_empty xs))) [
        | inl e ↦ rw e (values-shift_by (λ u. u +ℤ ops.seconds_to_ns seconds) xs)
        | inr e ↦ rw e refl
      ]

  -- The shifts of the time axis, and the values that they leave.
  pub shifted-unzip :
      (ops : RunOps Real) (reset : Bool) (seconds : Real) (xs : List (Sample Real))
      → record { ts = offset_ts ops seconds (reset_ts reset (times xs)); vs = values xs }
        ≡ unzip (offset_time ops seconds (reset_time reset xs))
  shifted-unzip ops reset seconds xs = λ i. record {
    ts =
        (ap (offset_ts ops seconds) (reset_ts-times reset xs)
            ∙ offset_ts-times ops seconds (reset_time reset xs))
          i;
    vs = sym (values-offset_time ops seconds (reset_time reset xs) ∙ values-reset_time reset xs) i;
  }
