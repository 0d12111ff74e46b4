-- ===== src/Plot/Layout/Json/Document.antt =====
-- The whole document of a layout, written and read (plot/src/PlotLayout.cpp).
use scope_analyser.Prelude.{◌≡◌, refl, Bool, false, some, [], ◌∷◌, ◌++◌, All, map, is_empty}
use scope_analyser.Prelude.Int.{ℤ, pos}
use scope_analyser.Prelude.Text.{QString, codes, eq_text}
use scope_analyser.Prelude.Dict.{Dict, find}
use scope_analyser.Prelude.Json.{JsonOps, JsonLaws, text_field, int_field, optional, optional_field}
use scope_analyser.Plot.Layout.{PlotLayoutChannel, PlotLayout}
use scope_analyser.Plot.Layout.Json.{
  axis_to_json, parse_axis, channel_to_json, parse_channel, lists_to_json, flat_axes, flat_channels,
  text_unless, layout_to_json, layout_from_json, seed, to_json_string, from_json_string,
}
use scope_analyser.Plot.Layout.Json.RoundTrip.{
  IsRanged, AllLists, parse_axis-axis_to_json, parse_channel-channel_to_json, parse_all-map,
  parse_lists-lists_to_json,
}

abbrev pub HasDomain : PlotLayoutChannel → Type 0
HasDomain c = is_empty c.domain ≡ false

module _ {Real Json : Type 0} (json : JsonOps Real Json) (zero_real : Real)
    (greater : Real → Real → Bool) (laws : JsonLaws json) where
  -- What a layout is as a reader sees it: the flat lists are those of the active domain, and stand for
  -- the time domain where there are no lists by domain.
  abbrev pub as_read : PlotLayout Real → PlotLayout Real
  as_read p = record p {
    axes = flat_axes json p;
    channels = flat_channels json p;
    axes_by_domain = seed json p.axes_by_domain (flat_axes json p);
    channels_by_domain = seed json p.channels_by_domain (flat_channels json p);
  }

  -- The ranges ascend, each channel names its domain, and the library goes through the domains in
  -- the order in which they stand.
  pub record IsWritable (p : PlotLayout Real) : Type 0 where
    pub flat_ranged : All (IsRanged json zero_real greater laws) (flat_axes json p)
    pub flat_named : All HasDomain (flat_channels json p)
    pub all_ranged : AllLists (IsRanged json zero_real greater laws) p.axes_by_domain
    pub all_named : AllLists HasDomain p.channels_by_domain
    pub axes_in_order :
        json.items (json.object (lists_to_json json (axis_to_json json) p.axes_by_domain))
        ≡ lists_to_json json (axis_to_json json) p.axes_by_domain
    pub channels_in_order :
        json.items (json.object (lists_to_json json (channel_to_json json) p.channels_by_domain))
        ≡ lists_to_json json (channel_to_json json) p.channels_by_domain

  -- The fields, with the name of the XY channel left out where it is empty.
  abbrev document : ℤ → QString → QString → Json → Json → Json → Json → Dict Json
  document version mode xy axes channels axes_by channels_by =
      (codes "version", json.integer version)
      ∷ (codes "viewMode", json.text mode)
      ∷ (text_unless json (is_empty xy) (codes "xyChannel") xy
          ++ (codes "axes", axes)
            ∷ (codes "channels", channels)
            ∷ (codes "axesByDomain", axes_by)
            ∷ (codes "channelsByDomain", channels_by)
            ∷ [])

  module _ (version : ℤ) (mode : QString) (a c ab cb : Json) where
    xy_found :
        (xy : QString)
        → find (codes "xyChannel") (document version mode xy a c ab cb)
          ≡ optional json laws (document version mode xy a c ab cb) (codes "xyChannel") xy
    unfolding find eq_text
    xy_found [] = refl
    xy_found (x ∷ r) = refl

    axes_found : (xy : QString) → find (codes "axes") (document version mode xy a c ab cb) ≡ some a
    unfolding find eq_text
    axes_found [] = refl
    axes_found (x ∷ r) = refl

    channels_found :
        (xy : QString) → find (codes "channels") (document version mode xy a c ab cb) ≡ some c
    unfolding find eq_text
    channels_found [] = refl
    channels_found (x ∷ r) = refl

    axes_by_found :
        (xy : QString) → find (codes "axesByDomain") (document version mode xy a c ab cb) ≡ some ab
    unfolding find eq_text
    axes_by_found [] = refl
    axes_by_found (x ∷ r) = refl

    channels_by_found :
        (xy : QString)
        → find (codes "channelsByDomain") (document version mode xy a c ab cb) ≡ some cb
    unfolding find eq_text
    channels_by_found [] = refl
    channels_by_found (x ∷ r) = refl

  layout_from_json-layout_to_json :
      (p : PlotLayout Real)
      → IsWritable p
      → layout_from_json json zero_real greater (layout_to_json json p) ≡ some (as_read p)
  unfolding layout_from_json layout_to_json find eq_text
  layout_from_json-layout_to_json p w =
      rw
        (
          int_field json laws _ (codes "version") (pos 1) p.version refl,
          text_field json laws _ (codes "viewMode") (codes "time") p.view_mode refl,
          optional_field json laws _ (codes "xyChannel") p.xy_channel
              (xy_found p.version p.view_mode _ _ _ _ p.xy_channel),
          laws.member-object _ (codes "axes"),
          axes_found p.version p.view_mode _ _ _ _ p.xy_channel,
          laws.elements-array (map (axis_to_json json) (flat_axes json p)),
          parse_all-map json zero_real greater laws (axis_to_json json)
              (parse_axis json zero_real greater) _
              (parse_axis-axis_to_json json zero_real greater laws) (flat_axes json p)
              w.flat_ranged,
          laws.member-object _ (codes "channels"),
          channels_found p.version p.view_mode _ _ _ _ p.xy_channel,
          laws.elements-array (map (channel_to_json json) (flat_channels json p)),
          parse_all-map json zero_real greater laws (channel_to_json json) (parse_channel json) _
              (parse_channel-channel_to_json json zero_real greater laws) (flat_channels json p)
              w.flat_named,
          laws.member-object _ (codes "axesByDomain"),
          axes_by_found p.version p.view_mode _ _ _ _ p.xy_channel,
          laws.is_object-object (lists_to_json json (axis_to_json json) p.axes_by_domain),
          w.axes_in_order,
          parse_lists-lists_to_json json zero_real greater laws (axis_to_json json)
              (parse_axis json zero_real greater) _
              (parse_axis-axis_to_json json zero_real greater laws) p.axes_by_domain w.all_ranged,
          laws.member-object _ (codes "channelsByDomain"),
          channels_by_found p.version p.view_mode _ _ _ _ p.xy_channel,
          laws.is_object-object (lists_to_json json (channel_to_json json) p.channels_by_domain),
          w.channels_in_order,
          parse_lists-lists_to_json json zero_real greater laws (channel_to_json json)
              (parse_channel json) _ (parse_channel-channel_to_json json zero_real greater laws)
              p.channels_by_domain w.all_named,
        )
        refl

  -- With a JSON library that reads values as they were built, where the text of the layout's
  -- document is parsed back into it, the axes' ranges ascend or are absent, each channel names its
  -- domain, and the library goes through the domains in their order: a layout that is written and
  -- read has the flat lists of its active domain, which stand for the time domain where it has no
  -- lists by domain, and is otherwise the same.
  pub from_json_string-to_json_string :
      (p : PlotLayout Real)
      → IsWritable p
      → json.parse (json.dump (layout_to_json json p)) ≡ some (layout_to_json json p)
      → from_json_string json zero_real greater (to_json_string json p) ≡ some (as_read p)
  unfolding from_json_string to_json_string
  from_json_string-to_json_string p w h = rw h (layout_from_json-layout_to_json p w)
