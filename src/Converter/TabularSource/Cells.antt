-- ===== src/Converter/TabularSource/Cells.antt =====
-- The numbers in the cells of a grid (`tryVal`, `tryNs`, `tryFreqStorage` of
-- converter/src/TabularSource.cpp), each with whether the cell was a number. What Qt and the
-- arithmetic of doubles do is a parameter.
use scope_analyser.Prelude.{
  ℕ, Bool, true, false, not, ◌&&◌, ◌||◌, Option, none, some, is_empty, if◌then◌else◌,
}
use scope_analyser.Prelude.Int.{ℤ}
use scope_analyser.Prelude.Text.{QString, codes, eq_text}

pub record CellOps (Real : Type 0) : Type 0 where
  pub trimmed : QString → QString
  -- `replace(before, after)` of a text, and `contains`
  pub replace : QString → QString → QString → QString
  pub contains_text : QString → QString → Bool
  -- a comparison without regard to case is equal
  pub same_text : QString → QString → Bool
  -- `toDouble` and `toLongLong`, where they succeed
  pub to_double : QString → Option Real
  pub to_long_long : QString → Option ℤ
  pub zero_value : Real
  pub of_ℕ : ℕ → Real
  pub multiply : Real → Real → Real
  pub divide : Real → Real → Real
  pub is_positive : Real → Bool
  -- the literal with this power of ten
  pub power_of_ten : ℕ → Real
  -- the conversion to a 64-bit integer
  pub truncate : Real → ℤ

module _ {Real : Type 0} (ops : CellOps Real) (decimal_separator : QString) where
  abbrev with_point : QString → QString
  with_point t =
      if eq_text decimal_separator (codes ".")
      then t
      else ops.replace t decimal_separator (codes ".")

  abbrev number_or_zero : Option Real → Real × Bool
  number_or_zero none = (ops.zero_value, false)
  number_or_zero (some v) = (v, true)

  -- `tryVal`: an empty cell is 0 and not flagged.
  unfoldable pub try_val : QString → Real × Bool
  try_val s =
      let t = ops.trimmed s in
      if is_empty t then (ops.zero_value, true) else number_or_zero (ops.to_double (with_point t))

  abbrev is_integer_text : QString → Bool
  is_integer_text t =
      not (is_empty t)
      && not (ops.contains_text t (codes "."))
      && not (ops.contains_text t (codes "e"))
      && not (ops.contains_text t (codes "E"))
      && not (ops.contains_text t decimal_separator)

  abbrev scaled : Real → ℕ → ℤ
  scaled v k = ops.truncate (ops.multiply v (ops.power_of_ten k))

  -- The first part of `tryNs`: an integer of nanoseconds, with no double in between.
  unfoldable pub integer_ns : QString → QString → Option ℤ
  integer_ns s unit =
      let t = ops.trimmed s in
      if ops.same_text unit (codes "ns")
      then if is_integer_text t then ops.to_long_long t else none
      else none

  -- A time in a unit, seconds where the unit is not known.
  unfoldable pub to_ns : Real → QString → ℤ
  to_ns v unit =
      if ops.same_text unit (codes "ms")
      then scaled v 6
      else if ops.same_text unit (codes "us") || eq_text unit (codes "µs")
      then scaled v 3
      else if ops.same_text unit (codes "ns")
      then ops.truncate v
      else scaled v 9

  -- `tryNs`
  unfoldable pub try_ns : QString → QString → ℤ × Bool
  try_ns s unit = elim (integer_ns s unit) [
    | some i ↦ (i, true)
    | none ↦ let (v, ok) = try_val s in (to_ns v unit, ok)
  ]

  -- `tryFreqStorage`: a frequency, scaled to 1e9 for a hertz.
  unfoldable pub try_freq_storage : QString → QString → ℤ × Bool
  try_freq_storage s unit =
      let (v, ok) = try_val s in
      (
        if ops.same_text unit (codes "kHz")
            then scaled v 12
            else if ops.same_text unit (codes "MHz")
            then scaled v 15
            else scaled v 9,
        ok,
      )
