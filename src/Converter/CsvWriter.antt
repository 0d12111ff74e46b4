-- ===== src/Converter/CsvWriter.antt =====
-- The export to CSV (`writeCsv`, converter/src/CsvWriter.cpp): the channels by domain, the columns
-- and the values that stand in them; Lines has the text. Arithmetic on doubles, their printing and
-- JSON values are parameters.
pub mod Grid
pub mod Columns
pub mod Lines
pub mod Interpolation
pub mod Repeats
use scope_analyser.Prelude.{
  ℕ, zero, suc, ◌-◌, Bool, true, false, not, ◌&&◌, ◌||◌, Option, none, some, List, [], ◌∷◌, ◌++◌,
  ◌==◌, map, length, get_or, leb, is_empty, if◌then◌else◌,
}
use scope_analyser.Prelude.Int.{ℤ, pos, ltb_ℤ, leb_ℤ, eqb_ℤ, ◌-ℤ◌}
use scope_analyser.Prelude.Text.{QString, codes, eq_text}
use scope_analyser.Core.Types.{Domain, time, frequency}
use scope_analyser.Core.Signal.{Signal}

pub data TimeMode : Type 0 where
  shared per_signal : TimeMode

pub data TimeAxis : Type 0 where
  epoch_ns relative_seconds : TimeAxis

pub record CsvExportOptions : Type 0 where
  pub include_header : Bool
  pub column_delimiter : QString
  pub row_delimiter : QString
  pub decimal_separator : QString
  pub time_mode : TimeMode
  pub time_axis : TimeAxis
  pub decimal_digits : ℤ
  pub include_metadata : Bool
  pub layout_json : QString

-- A signal with its values, pulled once.
pub record Cache (Real : Type 0) : Type 0 where
  pub signal : Signal
  pub timestamps : List ℤ
  pub vals : List Real

-- What the export does with doubles.
pub record NumberOps (Real : Type 0) : Type 0 where
  pub nan : Real
  pub is_nan : Real → Bool
  pub is_zero : Real → Bool
  pub of_ℤ : ℤ → Real
  pub add : Real → Real → Real
  pub sub : Real → Real → Real
  pub mul : Real → Real → Real
  pub div : Real → Real → Real
  pub giga : Real
  -- `QString::number` in the formats 'g' with 15 digits and 'f', and of a 64-bit integer
  pub general : Real → QString
  pub fixed : Real → ℤ → QString
  pub integer : ℤ → QString
  -- a text with its points replaced
  pub replace_point : QString → QString → QString

-- `std::lower_bound`: the first place whose time is not below `t`.
unfoldable pub lower_bound : List ℤ → ℤ → ℕ
lower_bound [] t = 0
lower_bound (x ∷ r) t = elim (ltb_ℤ x t) [ true ↦ suc (lower_bound r t) | false ↦ 0 ]

module _ {Real : Type 0} (ops : NumberOps Real) where
  -- `fmtDouble`
  unfoldable pub fmt_double : Real → QString → ℤ → QString
  fmt_double v dec_sep digits =
      let s = if ltb_ℤ digits (pos 0) then ops.general v else ops.fixed v digits in
      if ops.is_nan v
      then []
      else if eq_text dec_sep (codes ".")
      then s
      else ops.replace_point s dec_sep

  abbrev between : List ℤ → List Real → ℕ → ℕ → ℤ → Real
  between ts vals lo hi t =
      let dt = ops.of_ℤ (get_or ts hi (pos 0) -ℤ get_or ts lo (pos 0)) in
      let frac = ops.div (ops.of_ℤ (t -ℤ get_or ts lo (pos 0))) dt in
      let v_lo = get_or vals lo ops.nan in
      if ops.is_zero dt
      then v_lo
      else ops.add v_lo (ops.mul frac (ops.sub (get_or vals hi ops.nan) v_lo))

  -- `linearInterp`
  unfoldable pub linear_interp : List ℤ → List Real → ℕ → ℤ → Real
  linear_interp ts vals n t =
      let hi = lower_bound ts t in
      if n == 0
      then ops.nan
      else if ltb_ℤ t (get_or ts 0 (pos 0)) || ltb_ℤ (get_or ts (n - 1) (pos 0)) t
      then ops.nan
      else if leb n hi
      then get_or vals (length vals - 1) ops.nan
      else if eqb_ℤ (get_or ts hi (pos 0)) t
      then get_or vals hi ops.nan
      else if hi == 0
      then get_or vals 0 ops.nan
      else between ts vals (hi - 1) hi t

-- `columnHeader`
unfoldable pub column_header : Signal → QString
column_header s =
    if is_empty s.meta.unit
    then s.meta.name
    else s.meta.name ++ (codes " [" ++ (s.meta.unit ++ codes "]"))

abbrev is_freq_domain : Domain → Bool
is_freq_domain frequency = true
is_freq_domain time = false

-- `isFreq`
unfoldable pub is_freq : Signal → Bool
is_freq s = is_freq_domain s.meta.domain

-- `sharedXLabel`
unfoldable pub shared_x_label : Domain → QString → QString
shared_x_label frequency time_unit = codes "f [Hz]"
shared_x_label time time_unit = codes "t [" ++ (time_unit ++ codes "]")

-- `perSigXHeader`
unfoldable pub per_sig_x_header : Signal → QString → QString
per_sig_x_header s time_unit =
    (if is_freq s then codes "f_" else codes "t_")
    ++ (s.meta.name ++ (codes " [" ++ ((if is_freq s then codes "Hz" else time_unit) ++ codes "]")))

abbrev min_first : List ℤ → ℤ → ℤ
min_first [] o = o
min_first (t ∷ _) o = if ltb_ℤ t o then t else o

module _ {Real : Type 0} where
  -- The split of the channels by domain.
  unfoldable pub time_caches : List (Cache Real) → List (Cache Real)
  time_caches [] = []
  time_caches (c ∷ r) = let rest = time_caches r in if is_freq c.signal then rest else c ∷ rest

  unfoldable pub freq_caches : List (Cache Real) → List (Cache Real)
  freq_caches [] = []
  freq_caches (c ∷ r) = let rest = freq_caches r in if is_freq c.signal then c ∷ rest else rest

  -- The earliest first timestamp, or `o`.
  unfoldable pub earliest : List (Cache Real) → ℤ → ℤ
  earliest [] o = o
  earliest (c ∷ r) o = earliest r (min_first c.timestamps o)

  -- `timeOriginNs`, 0 where the loop leaves the greatest 64-bit integer.
  unfoldable pub time_origin_ns : List (Cache Real) → ℤ
  time_origin_ns cs =
      let o = earliest cs (pos 9223372036854775807) in
      if eqb_ℤ o (pos 9223372036854775807) then pos 0 else o

unfoldable pub is_epoch : CsvExportOptions → Bool
is_epoch opts = elim opts.time_axis [ epoch_ns ↦ true | relative_seconds ↦ false ]

-- `timeUnit`
unfoldable pub time_unit : CsvExportOptions → QString
time_unit opts = if is_epoch opts then codes "ns" else codes "s"
