-- ===== src/Tests/Plot.antt =====
-- The theorems on plot/ at a concrete layout, with natural numbers for the axis ranges.
use scope_analyser.Prelude.{ℕ, ◌≡◌, refl, inl, Bool, true, some, none, List, [], ◌∷◌, ltb}
use scope_analyser.Prelude.Int.{pos}
use scope_analyser.Prelude.Text.{QString, codes, eq_text}
use scope_analyser.Prelude.Dict.{find, has}
use scope_analyser.Plot.Layout.Json.{
  layout_to_json, flat_axes, flat_channels, axis_to_json, channel_to_json, from_json_string,
  to_json_string,
}
use scope_analyser.Plot.Layout.Json.Document.{as_read, from_json_string-to_json_string}
use scope_analyser.Tests.JsonTree.{JsonTree, no_fields, object_of, items_of, tree_json, tree_laws}
use scope_analyser.Plot.Layout.{
  PlotLayoutAxis, PlotLayoutChannel, PlotLayout, value, restricted_to_domain,
}
use scope_analyser.Plot.Layout.Laws.{restricted_to_domain_lem}

abbrev axis : QString → PlotLayoutAxis ℕ
axis label = record { label = label; side = codes "left"; min = 0; max = 10; has_range = true }

abbrev channel : QString → QString → QString → PlotLayoutChannel
channel name formula domain = record {
  name = name;
  axis_index = pos 1;
  formula = formula;
  domain = domain;
}

abbrev speed_channels : List PlotLayoutChannel
speed_channels =
    channel (codes "speed") [] (codes "time")
    ∷ channel (codes "slow") (codes "Filter(speed, 0.05)") (codes "time")
    ∷ []

-- An XY view over a channel of the time domain.
abbrev chart : PlotLayout ℕ
chart = record {
  version = pos 2;
  view_mode = codes "xy";
  xy_channel = codes "speed";
  axes_by_domain =
      (codes "time", axis (codes "mm") ∷ []) ∷ (codes "frequency", axis (codes "dB") ∷ []) ∷ [];
  channels_by_domain =
      (codes "time", speed_channels)
      ∷ (codes "frequency", channel (codes "fft") (codes "FFT(speed)") (codes "frequency") ∷ [])
      ∷ [];
  axes = axis (codes "mm") ∷ [];
  channels = speed_channels;
}

restricted_to_domain_lem_example :
    let r = restricted_to_domain (codes "time") chart in
    (find (codes "frequency") r.axes_by_domain ≡ none)
    × (find (codes "frequency") r.channels_by_domain ≡ none)
    × (r.axes ≡ axis (codes "mm") ∷ [])
    × (r.channels ≡ speed_channels)
unfolding eq_text value find
restricted_to_domain_lem_example = restricted_to_domain_lem (codes "time") (codes "frequency") chart

abbrev above : ℕ → ℕ → Bool
above a b = ltb b a

-- The document of the chart.
abbrev chart_document : JsonTree
chart_document = layout_to_json (tree_json no_fields) chart

from_json_string-to_json_string_example :
    from_json_string
      (tree_json chart_document)
      0
      above
      (to_json_string (tree_json chart_document) chart)
    ≡ some (as_read (tree_json chart_document) 0 above (tree_laws chart_document) chart)
unfolding layout_to_json flat_axes flat_channels has find eq_text value axis_to_json channel_to_json
    object_of items_of
from_json_string-to_json_string_example =
    from_json_string-to_json_string (tree_json chart_document) 0 above (tree_laws chart_document)
      chart
      (record {
        flat_ranged = (inl (refl, refl), tt);
        flat_named = (refl, (refl, tt));
        all_ranged = ((inl (refl, refl), tt), ((inl (refl, refl), tt), tt));
        all_named = ((refl, (refl, tt)), ((refl, tt), tt));
        axes_in_order = refl;
        channels_in_order = refl;
      })
      refl
