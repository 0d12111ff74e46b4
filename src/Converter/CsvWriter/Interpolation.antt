-- ===== src/Converter/CsvWriter/Interpolation.antt =====
-- What stands in a shared row (`linearInterp`, converter/src/CsvWriter.cpp).
use scope_analyser.Prelude.{
  ℕ, zero, suc, ◌-◌, ◌≡◌, refl, ap, true, false, some, List, [], ◌∷◌, ◌==◌, length, get_elem?,
  get_or, leb, lt-length_of_get_elem?, arith,
}
use scope_analyser.Prelude.Int.{ℤ, pos, ltb_ℤ, eqb_ℤ, ◌<ℤ◌}
use scope_analyser.Converter.CsvWriter.{NumberOps, lower_bound, linear_interp}
use scope_analyser.Converter.CsvWriter.Grid.{AscendsFrom, Ascends}

get_or-found :
    {A : Type 0} (xs : List A) (i : ℕ) (d x : A) → get_elem? xs i ≡ some x → get_or xs i d ≡ x
get_or-found [] i d x e = cc
get_or-found (y ∷ r) zero d x e = cc
get_or-found (y ∷ r) (suc i) d x e = get_or-found r i d x e

above_bound : (b t : ℤ) (ts : List ℤ) (i : ℕ) → AscendsFrom b ts → get_elem? ts i ≡ some t → b <ℤ t
above_bound b t [] i s e = cc
above_bound b t (u ∷ r) zero s e = let same : u ≡ t = cc in rw (← same) s.0
above_bound b t (u ∷ r) (suc i) s e =
    let h : u <ℤ t = above_bound u t r i s.1 e in omega (arith, h, s.0)

Ascends-tail : (t : ℤ) (r : List ℤ) → AscendsFrom t r → Ascends r
Ascends-tail t [] s = tt
Ascends-tail t (u ∷ r) s = s.1

not_below : (u t : ℤ) → u ≡ t → ltb_ℤ u t ≡ false
not_below u t e = ground arith

is_below : (u t : ℤ) → u <ℤ t → ltb_ℤ u t ≡ true
is_below u t h = ground arith

lower_bound-found :
    (ts : List ℤ) (i : ℕ) (t : ℤ) → Ascends ts → get_elem? ts i ≡ some t → lower_bound ts t ≡ i
unfolding lower_bound
lower_bound-found [] i t s e = cc
lower_bound-found (u ∷ r) zero t s e =
    let same : u ≡ t = cc in rw (not_below u t same, lower_bound) refl
lower_bound-found (u ∷ r) (suc i) t s e =
    rw (is_below u t (above_bound u t r i s e), lower_bound)
      (ap suc (lower_bound-found r i t (Ascends-tail u r s) e))

eqb_self : (u t : ℤ) → u ≡ t → eqb_ℤ u t ≡ true
eqb_self u t e = ground arith

not_above : (u t : ℤ) → u ≡ t → ltb_ℤ t u ≡ false
not_above u t e = ground arith

above_not_below : (u t : ℤ) → u <ℤ t → ltb_ℤ t u ≡ false
above_not_below u t h = ground arith

not_below_trans : (l w t : ℤ) → ltb_ℤ l w ≡ false → t <ℤ w → ltb_ℤ l t ≡ false
not_below_trans l w t e h = ground arith

step_last :
    (u w : ℤ) (r : List ℤ) (d : ℤ)
    → get_or (u ∷ w ∷ r) (length (u ∷ w ∷ r) - 1) d ≡ get_or (w ∷ r) (length (w ∷ r) - 1) d
step_last u w r d =
    let e : length (u ∷ w ∷ r) - 1 ≡ suc (length (w ∷ r) - 1) = omega arith in rw e refl

first_not_above :
    (ts : List ℤ) (i : ℕ) (t d : ℤ)
    → Ascends ts
    → get_elem? ts i ≡ some t
    → ltb_ℤ t (get_or ts 0 d) ≡ false
first_not_above [] i t d s e = cc
first_not_above (u ∷ r) zero t d s e = let same : u ≡ t = cc in not_above (u) t same
first_not_above (u ∷ r) (suc i) t d s e = above_not_below u t (above_bound u t r i s e)

last_not_below :
    (ts : List ℤ) (i : ℕ) (t d : ℤ)
    → Ascends ts
    → get_elem? ts i ≡ some t
    → ltb_ℤ (get_or ts (length ts - 1) d) t ≡ false
last_not_below [] i t d s e = cc
last_not_below (u ∷ []) zero t d s e = let same : u ≡ t = cc in not_below u t same
last_not_below (u ∷ []) (suc i) t d s e = cc
last_not_below (u ∷ w ∷ r) zero t d s e =
    let same : u ≡ t = cc in
    rw (step_last u w r d) (
      not_below_trans (get_or (w ∷ r) (length (w ∷ r) - 1) d) w t
        (last_not_below (w ∷ r) zero w d s.1 refl) (rw (← same) s.0))
last_not_below (u ∷ w ∷ r) (suc i) t d s e =
    rw (step_last u w r d) (last_not_below (w ∷ r) i t d s.1 e)

-- Where the timestamps ascend: at the timestamp of a sample the interpolation returns the value in
-- that place, and no number where there is none.
pub linear_interp-get_elem? :
    {Real : Type 0} (ops : NumberOps Real) (ts : List ℤ) (vals : List Real) (i : ℕ) (t : ℤ)
    → Ascends ts
    → get_elem? ts i ≡ some t
    → linear_interp ops ts vals (length ts) t ≡ get_or vals i ops.nan
unfolding linear_interp
linear_interp-get_elem? ops ts vals i t s e =
    let some_samples : (length ts == 0) ≡ false = ground (arith, lt-length_of_get_elem? ts i e) in
    let inside : leb (length ts) i ≡ false = ground (arith, lt-length_of_get_elem? ts i e) in
    let exact : eqb_ℤ (get_or ts i (pos 0)) t ≡ true =
      eqb_self _ t (get_or-found ts i (pos 0) t e) in
    rw
      (
        lower_bound-found ts i t s e,
        some_samples,
        first_not_above ts i t (pos 0) s e,
        last_not_below ts i t (pos 0) s e,
        inside,
        exact,
      )
      refl
