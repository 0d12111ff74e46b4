-- ===== src/Plot/Layout/Json.antt =====
-- The document of a layout (`layoutToJson`, `layoutFromJson`, plot/src/PlotLayout.cpp). A document
-- that throws when it is read is `none`. The keys of an object are distinct, so each insertion of a
-- domain adds an entry. Whether a range ascends is a parameter.
pub mod RoundTrip
pub mod Document
use scope_analyser.Prelude.{
  Bool, true, false, not, ◌&&◌, Option, none, some, List, [], ◌∷◌, ◌++◌, map, is_empty,
  if◌then◌else◌,
}
use scope_analyser.Prelude.Int.{pos}
use scope_analyser.Prelude.Text.{QString, codes, eq_text}
use scope_analyser.Prelude.Dict.{Dict, has}
use scope_analyser.Prelude.Json.{JsonOps, ◌>>=◌, value}
use scope_analyser.Plot.Layout.{PlotLayoutAxis, PlotLayoutChannel, PlotLayout}
use scope_analyser.Plot.Layout

abbrev pub text_unless :
    {Real Json : Type 0} → JsonOps Real Json → Bool → QString → QString → Dict Json
text_unless json true key t = []
text_unless json false key t = (key, json.text t) ∷ []

module _ {Real Json : Type 0} (json : JsonOps Real Json) where
  abbrev range_fields : PlotLayoutAxis Real → Dict Json
  range_fields a =
      if a.has_range
      then (codes "min", json.number a.min) ∷ (codes "max", json.number a.max) ∷ []
      else []

  -- `axisToJson`
  unfoldable pub axis_to_json : PlotLayoutAxis Real → Json
  axis_to_json a =
      json.object
        ((codes "label", json.text a.label) ∷ (codes "side", json.text a.side) ∷ range_fields a)

  -- `channelToJson`
  unfoldable pub channel_to_json : PlotLayoutChannel → Json
  channel_to_json c = json.object (
      (codes "name", json.text c.name)
      ∷ (codes "axis", json.integer c.axis_index)
      ∷ (text_unless json (is_empty c.formula) (codes "formula") c.formula
          ++ text_unless json
              (not (not (is_empty c.domain) && not (eq_text c.domain (codes "time"))))
              (codes "domain") c.domain))

  -- A domain's list under its key.
  abbrev pub lists_to_json : {V : Type 0} → (V → Json) → Dict (List V) → Dict Json
  lists_to_json f [] = []
  lists_to_json f ((k, l) ∷ m) = (k, json.array (map f l)) ∷ lists_to_json f m

  abbrev active_domain : PlotLayout Real → QString
  active_domain p =
      if eq_text p.view_mode (codes "frequency") then codes "frequency" else codes "time"

  abbrev pub flat : {V : Type 0} → QString → Dict (List V) → List V → List V
  flat domain m l = if has domain m then Layout.value m domain else l

  -- The flat lists that a reader of the first version sees.
  unfoldable pub flat_axes : PlotLayout Real → List (PlotLayoutAxis Real)
  flat_axes p = flat (active_domain p) p.axes_by_domain p.axes

  unfoldable pub flat_channels : PlotLayout Real → List PlotLayoutChannel
  flat_channels p = flat (active_domain p) p.channels_by_domain p.channels

  -- `layoutToJson`
  unfoldable pub layout_to_json : PlotLayout Real → Json
  layout_to_json p = json.object (
      (codes "version", json.integer p.version)
      ∷ (codes "viewMode", json.text p.view_mode)
      ∷ (text_unless json (is_empty p.xy_channel) (codes "xyChannel") p.xy_channel
          ++ (codes "axes", json.array (map axis_to_json (flat_axes p)))
            ∷ (codes "channels", json.array (map channel_to_json (flat_channels p)))
            ∷ (codes "axesByDomain", json.object (lists_to_json axis_to_json p.axes_by_domain))
            ∷ (
              codes "channelsByDomain",
              json.object (lists_to_json channel_to_json p.channels_by_domain),
            )
            ∷ []))

  module _ (zero_real : Real) (greater : Real → Real → Bool) where
    abbrev pub with_range : Json → PlotLayoutAxis Real → Option (PlotLayoutAxis Real)
    with_range ja a = do
      min ← value json json.as_number ja (codes "min") zero_real
      max ← value json json.as_number ja (codes "max") zero_real
      some (record a { min = min; max = max; has_range = greater max min })

    abbrev range_if :
        Option Json → Option Json → Json → PlotLayoutAxis Real → Option (PlotLayoutAxis Real)
    range_if (some _) (some _) ja a = with_range ja a
    range_if _ _ ja a = some a

    -- `parseAxis`
    unfoldable pub parse_axis : Json → Option (PlotLayoutAxis Real)
    parse_axis ja = do
      label ← value json json.as_text ja (codes "label") []
      side ← value json json.as_text ja (codes "side") (codes "left")
      range_if (json.member ja (codes "min")) (json.member ja (codes "max")) ja (record {
        label = label;
        side = side;
        min = zero_real;
        max = zero_real;
        has_range = false;
      })

  -- `parseChannel`
  unfoldable pub parse_channel : Json → Option PlotLayoutChannel
  parse_channel jc = do
    name ← value json json.as_text jc (codes "name") []
    axis ← value json json.as_integer jc (codes "axis") (pos 0)
    formula ← value json json.as_text jc (codes "formula") []
    domain ← value json json.as_text jc (codes "domain") (codes "time")
    some (record { name = name; axis_index = axis; formula = formula; domain = domain })

  abbrev pub parse_all : {V : Type 0} → (Json → Option V) → List Json → Option (List V)
  parse_all f [] = some []
  parse_all f (j ∷ r) = f j >>= λ v. parse_all f r >>= λ rest. some (v ∷ rest)

  abbrev pub parse_lists : {V : Type 0} → (Json → Option V) → Dict Json → Option (Dict (List V))
  parse_lists f [] = some []
  parse_lists f ((k, j) ∷ r) =
      parse_all f (json.elements j) >>= λ l. parse_lists f r >>= λ rest. some ((k, l) ∷ rest)

  abbrev elements_at : Option Json → List Json
  elements_at none = []
  elements_at (some j) = json.elements j

  abbrev items_at : Option Json → Dict Json
  items_at none = []
  items_at (some j) = if json.is_object j then json.items j else []

  -- The fallback of the first version: the flat list as the time domain's.
  abbrev pub seed : {V : Type 0} → Dict (List V) → List V → Dict (List V)
  seed m l = if is_empty m && not (is_empty l) then (codes "time", l) ∷ [] else m

  -- `layoutFromJson`
  unfoldable pub layout_from_json : Real → (Real → Real → Bool) → Json → Option (PlotLayout Real)
  layout_from_json zero_real greater j = do
    version ← value json json.as_integer j (codes "version") (pos 1)
    view_mode ← value json json.as_text j (codes "viewMode") (codes "time")
    xy_channel ← value json json.as_text j (codes "xyChannel") []
    axes ← parse_all (parse_axis zero_real greater) (elements_at (json.member j (codes "axes")))
    channels ← parse_all parse_channel (elements_at (json.member j (codes "channels")))
    axes_by ←
        parse_lists (parse_axis zero_real greater) (items_at (json.member j (codes "axesByDomain")))
    channels_by ← parse_lists parse_channel (items_at (json.member j (codes "channelsByDomain")))
    some (record {
      version = version;
      view_mode = view_mode;
      xy_channel = xy_channel;
      axes_by_domain = seed axes_by axes;
      channels_by_domain = seed channels_by channels;
      axes = axes;
      channels = channels;
    })

  -- `toJsonString` and `fromJsonString`
  unfoldable pub to_json_string : PlotLayout Real → QString
  to_json_string p = json.dump (layout_to_json p)

  unfoldable pub from_json_string : Real → (Real → Real → Bool) → QString → Option (PlotLayout Real)
  from_json_string zero_real greater js = json.parse js >>= layout_from_json zero_real greater
