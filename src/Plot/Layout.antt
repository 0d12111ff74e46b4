-- ===== src/Plot/Layout.antt =====
-- The plot configuration that is saved with a chart (`PlotLayout` of
-- plot/include/scope/plot/PlotLayout.h, plot/src/PlotLayout.cpp): its restriction to a domain, and
-- what saving may strip from it. An axis range is of a type that the code here only copies.
pub mod Laws
pub mod Json
use scope_analyser.Prelude.{
  ℕ, Bool, true, false, not, ◌&&◌, ◌||◌, Option, none, some, List, [], ◌∷◌, map, is_empty,
  if◌then◌else◌,
}
use scope_analyser.Prelude.Int.{ℤ, pos}
use scope_analyser.Prelude.Text.{QString, codes, eq_text}
use scope_analyser.Prelude.Dict.{Dict, find, has}

-- `PlotLayoutAxis`
pub record PlotLayoutAxis (Real : Type 0) : Type 0 where
  pub label : QString
  pub side : QString
  pub min : Real
  pub max : Real
  pub has_range : Bool

-- `PlotLayoutChannel`
pub record PlotLayoutChannel : Type 0 where
  pub name : QString
  pub axis_index : ℤ
  pub formula : QString
  pub domain : QString

pub record PlotLayout (Real : Type 0) : Type 0 where
  pub version : ℤ
  pub view_mode : QString
  pub xy_channel : QString
  pub axes_by_domain : Dict (List (PlotLayoutAxis Real))
  pub channels_by_domain : Dict (List PlotLayoutChannel)
  pub axes : List (PlotLayoutAxis Real)
  pub channels : List PlotLayoutChannel

-- `QHash::value`, of a map to lists.
unfoldable pub value : {V : Type 0} → Dict (List V) → QString → List V
value m k = elim (find k m) [ none ↦ [] | some l ↦ l ]

-- The entry of the domain alone, if there is one.
unfoldable pub only : {V : Type 0} → QString → Dict (List V) → Dict (List V)
only domain m = if has domain m then (domain, value m domain) ∷ [] else []

-- Whether a channel of the list bears the name.
unfoldable pub names_channel : QString → List PlotLayoutChannel → Bool
names_channel name [] = false
names_channel name (c ∷ r) = eq_text c.name name || names_channel name r

unfoldable pub clear_formula : PlotLayoutChannel → PlotLayoutChannel
clear_formula c = record c { formula = [] }

unfoldable pub clear_axis : PlotLayoutChannel → PlotLayoutChannel
clear_axis c = record c { axis_index = pos 0 }

-- A change of every list of the map.
unfoldable pub map_lists : {V : Type 0} → (V → V) → Dict (List V) → Dict (List V)
map_lists f [] = []
map_lists f ((k, l) ∷ m) = (k, map f l) ∷ map_lists f m

module _ {Real : Type 0} where
  unfoldable pub keeps_xy : QString → PlotLayout Real → Bool
  keeps_xy domain p =
      eq_text p.view_mode (codes "xy")
      && not (is_empty p.xy_channel)
      && names_channel p.xy_channel (value (only domain p.channels_by_domain) domain)

  -- `restrictedToDomain`
  unfoldable pub restricted_to_domain : QString → PlotLayout Real → PlotLayout Real
  restricted_to_domain domain p = record {
    version = p.version;
    view_mode = if keeps_xy domain p then codes "xy" else domain;
    xy_channel = if keeps_xy domain p then p.xy_channel else [];
    axes_by_domain = only domain p.axes_by_domain;
    channels_by_domain = only domain p.channels_by_domain;
    axes = value (only domain p.axes_by_domain) domain;
    channels = value (only domain p.channels_by_domain) domain;
  }

  -- `stripFormulas`
  unfoldable pub strip_formulas : PlotLayout Real → PlotLayout Real
  strip_formulas p = record p {
    channels = map clear_formula p.channels;
    channels_by_domain = map_lists clear_formula p.channels_by_domain;
  }

  -- `stripLayout`
  unfoldable pub strip_layout : PlotLayout Real → PlotLayout Real
  strip_layout p = record p {
    axes = [];
    axes_by_domain = [];
    channels = map clear_axis p.channels;
    channels_by_domain = map_lists clear_axis p.channels_by_domain;
    view_mode = codes "time";
    xy_channel = [];
  }
