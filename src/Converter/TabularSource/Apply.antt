-- ===== src/Converter/TabularSource/Apply.antt =====
-- The import of the channels of a profile (`TabularSource::apply`, converter/src/TabularSource.cpp):
-- from the grid to signals, with the warnings in the place of their words. How a double is stored,
-- and whether a text is a letter, are parameters.
pub mod Laws
pub mod Axes
pub mod Channels
pub mod TimeAxis
use scope_analyser.Prelude.{
  ℕ, zero, suc, Bool, true, false, not, Option, none, some, List, [], ◌∷◌, ◌++◌, ◌==◌, length, map,
  is_empty, if◌then◌else◌,
}
use scope_analyser.Prelude.Int.{ℤ, pos, negsuc, ltb_ℤ}
use scope_analyser.Prelude.Text.{QString, codes}
use scope_analyser.Prelude.Dict.{Dict, find, insert_or_assign}
use scope_analyser.Core.Types.{float64, ads_notify, Domain}
use scope_analyser.Core.Signal.{Signal, Meta, new, append, no_source_start}
use scope_analyser.Converter.TabularSource.{
  ColumnMapping, ConverterProfile, Rows, XIndex, XStrategy, by_rate, by_column, unknown_column,
  no_source, index_columns, is_ambiguous, resolve_range, resolve_x_strategy, unit_warnings,
}
use scope_analyser.Converter.TabularSource.Labels.{col_label, label_to_col}
use scope_analyser.Converter.TabularSource.Cells.{CellOps}
use scope_analyser.Converter.TabularSource.Collapse.{RunOps}
use scope_analyser.Converter.TabularSource.Vectors.{
  Vectors, reset_ts, offset_ts, collapse_duplicates_vectors, collapse_plateaus_vectors,
}
use scope_analyser.Converter.TabularSource.Reading.{
  BadCells, no_bad_cells, Reading, is_frequency, read_rate_channel, read_column_channel,
}

-- What the import refuses, with the texts that its message names.
pub data ApplyError : Type 0 where
  source_is_empty : ApplyError
  no_channels : ApplyError
  unpinned_channel : QString → ApplyError
  unknown_x_column : QString → ApplyError
  no_x_source : ApplyError

pub data Warning : Type 0 where
  -- an X column and its unit, which is on no ladder
  unknown_unit : QString → QString → Warning
  -- a column and the name of its channel, with its cells that are no numbers
  bad_y_cells : QString → QString → BadCells → Warning
  bad_x_cells : QString → BadCells → Warning

pub data Outcome (A : Type 0) : Type 0 where
  failed : ApplyError → Outcome A
  applied : A → Outcome A

-- What the loop over the channels has collected.
pub record Import : Type 0 where
  pub out : List Signal
  pub warnings : List Warning
  pub bad_x : Dict BadCells

-- The operations on doubles, on texts and on characters, and the label of the source.
pub record Context (Real : Type 0) : Type 0 where
  pub cells : CellOps Real
  pub runs : RunOps Real
  pub is_letter : ℕ → Bool
  pub to_upper : ℕ → ℕ
  pub bytes_of : Real → List ℕ
  pub bits_of : Real → ℕ
  pub source_label : QString

abbrev or_empty : Option BadCells → BadCells
or_empty none = no_bad_cells
or_empty (some b) = b

unfoldable pub first_unpinned : {Real : Type 0} → List (ℕ × ColumnMapping Real) → QString
first_unpinned [] = []
first_unpinned ((_, y) ∷ r) =
    let rest = first_unpinned r in
    if is_empty y.x_source_column then (if y.use_sample_rate then rest else y.signal_name) else rest

unfoldable pub bad_x_warnings : Dict BadCells → List Warning
bad_x_warnings [] = []
bad_x_warnings ((id, bad) ∷ r) =
    let rest = bad_x_warnings r in if bad.count == 0 then rest else bad_x_cells id bad ∷ rest

abbrev pub is_empty_range : ℕ × ℤ → Bool
is_empty_range (lo, hi) = ltb_ℤ hi (pos lo)

abbrev unit_warning : QString × QString → Warning
unit_warning (id, unit) = unknown_unit id unit

abbrev pub with_x_warnings : Outcome Import → Outcome Import
with_x_warnings (failed e) = failed e
with_x_warnings (applied st) =
    applied (record st { warnings = st.warnings ++ bad_x_warnings st.bad_x })

module _ {Real : Type 0} (ctx : Context Real) where
  unfoldable pub channel_name : ℕ → ColumnMapping Real → QString
  channel_name y_col y =
      if is_empty y.signal_name then codes "Col" ++ col_label y_col else y.signal_name

  -- The shifts and the two collapses, in their order.
  unfoldable pub post_process : ColumnMapping Real → Vectors Real → Vectors Real
  post_process y v =
      let reset = reset_ts y.reset_time_to_zero v.ts in
      let shifted : Vectors Real = record {
        ts = offset_ts ctx.runs y.time_offset_sec reset;
        vs = v.vs;
      } in
      let distinct = collapse_duplicates_vectors ctx.runs y.collapse_duplicates shifted in
      collapse_plateaus_vectors ctx.runs y.collapse_value_plateaus distinct

  abbrev pub value_bytes : List Real → List ℕ
  value_bytes [] = []
  value_bytes (v ∷ r) = ctx.bytes_of v ++ value_bytes r

  -- The signal of a channel, with the rate where it has one.
  unfoldable pub make_signal : ℕ → ColumnMapping Real → ℕ → Domain → Vectors Real → Signal
  make_signal y_col y rate_bits domain v = append v.ts (value_bytes v.vs) (length v.vs) (
      new (record {
        name = channel_name y_col y;
        unit = y.unit;
        data_type = float64;
        mode = ads_notify;
        sample_rate_hz = rate_bits;
        parent_task_cycle_us = 0;
        source_symbol = ctx.source_label ++ (codes ":" ++ col_label y_col);
        domain = domain;
        source_start_ns = no_source_start;
      }))

  abbrev y_warnings : ℕ → ColumnMapping Real → BadCells → List Warning
  y_warnings y_col y bad =
      if bad.count == 0 then [] else bad_y_cells (col_label y_col) (channel_name y_col y) bad ∷ []

  -- What a channel that was read adds; `bad_x` is what is known of the X columns by now.
  unfoldable pub add_channel :
      ℕ → ColumnMapping Real → ℕ → Domain → Reading Real → Dict BadCells → Import → Import
  add_channel y_col y rate_bits domain reading bad_x st = record {
    out = st.out ++ make_signal y_col y rate_bits domain (post_process y reading.read) ∷ [];
    warnings = st.warnings ++ y_warnings y_col y reading.y_bad;
    bad_x = bad_x;
  }

  module _ (rows : Rows) (profile : ConverterProfile Real) (index : XIndex Real) where
    abbrev domain_of : ColumnMapping Real → Domain
    domain_of x = if is_frequency x.role then Domain.frequency else Domain.time

    abbrev apply_rate : ℕ → ColumnMapping Real → Real → Import → Import
    apply_rate y_col y rate st =
        let reading =
          read_rate_channel ctx.cells profile rows y_col (resolve_range rows profile y) rate in
        add_channel y_col y (ctx.bits_of rate) Domain.time reading st.bad_x st

    abbrev apply_column : ℕ → ColumnMapping Real → ColumnMapping Real → Import → Import
    apply_column y_col y x st =
        let x_bad = or_empty (find x.column_id st.bad_x) in
        let x_col = label_to_col ctx.is_letter ctx.to_upper x.column_id in
        let reading =
          read_column_channel ctx.cells profile rows y_col (resolve_range rows profile y) x x_col
            x_bad in
        add_channel y_col y (ctx.bits_of ctx.cells.zero_value) (domain_of x) reading
          (insert_or_assign x.column_id reading.x_bad st.bad_x) st

    -- The samples of a channel by its source of the X axis.
    unfoldable pub apply_strategy :
        ℕ → ColumnMapping Real → XStrategy Real → Import → Outcome Import
    apply_strategy y_col y (by_rate rate) st = applied (apply_rate y_col y rate st)
    apply_strategy y_col y (by_column x) st = applied (apply_column y_col y x st)
    apply_strategy y_col y (unknown_column label) st = failed (unknown_x_column label)
    apply_strategy y_col y no_source st = failed no_x_source

    -- One round of the loop over the channels: one with no rows is skipped.
    unfoldable pub apply_channel : ℕ → ColumnMapping Real → Import → Outcome Import
    apply_channel y_col y st =
        if is_empty_range (resolve_range rows profile y)
        then applied st
        else apply_strategy y_col y (resolve_x_strategy profile index y) st

    unfoldable pub apply_channels : List (ℕ × ColumnMapping Real) → Import → Outcome Import
    apply_channels [] st = applied st
    apply_channels ((y_col, y) ∷ r) st = elim (apply_channel y_col y st) [
      | failed e ↦ failed e
      | applied st' ↦ apply_channels r st'
    ]

  abbrev pub index_of : ConverterProfile Real → XIndex Real
  index_of profile =
      index_columns (label_to_col ctx.is_letter ctx.to_upper) profile.columns (record {
        x_by_label = [];
        first_x_label = [];
        have_time_x = false;
        have_freq_x = false;
        y_specs = [];
      })

  -- `apply`, with a list for the warnings.
  unfoldable pub apply : Rows → ConverterProfile Real → Outcome Import
  apply rows profile =
      let index = index_of profile in
      let warned = map unit_warning (unit_warnings ctx.cells.same_text index.x_by_label) in
      if is_empty rows
      then failed source_is_empty
      else if is_empty index.y_specs
      then failed no_channels
      else if is_ambiguous index
      then failed (unpinned_channel (first_unpinned index.y_specs))
      else with_x_warnings (
          apply_channels rows profile index index.y_specs
            (record { out = []; warnings = warned; bad_x = [] }))
