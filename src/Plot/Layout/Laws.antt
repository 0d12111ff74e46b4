-- ===== src/Plot/Layout/Laws.antt =====
-- How restricting a layout and stripping it combine (plot/src/PlotLayout.cpp).
use mathlib.Core.Path.{ap₂}
use scope_analyser.Prelude.{
  ◌≡◌, refl, ap, ◌∙◌, arith, Bool, true, false, not, ◌&&◌, ◌||◌, none, some, List, [], ◌∷◌, map,
  is_empty, if◌then◌else◌,
}
use scope_analyser.Prelude.Int.{pos}
use scope_analyser.Prelude.Text.{QString, codes, eq_text, eq_text_iff}
use scope_analyser.Prelude.Dict.{Dict, find, has}
use scope_analyser.Plot.Layout.{
  PlotLayoutChannel, PlotLayout, value, only, names_channel, clear_formula, clear_axis, map_lists,
  keeps_xy, restricted_to_domain, strip_formulas, strip_layout,
}

module _ {V : Type 0} where
  -- What is left of a map, at every key.
  find-only :
      (domain k : QString) (m : Dict (List V))
      → find k (only domain m) ≡ (if eq_text domain k then find domain m else none)
  unfolding find only value has
  find-only domain k m = ground (arith, eq_text_iff domain k)

  value-only :
      (domain : QString) (m : Dict (List V)) → value (only domain m) domain ≡ value m domain
  unfolding value
  value-only domain m = ground (arith, find-only domain domain m, eq_text_iff domain domain)

  find-map_lists :
      (f : V → V) (k : QString) (m : Dict (List V))
      → find k (map_lists f m) ≡ elim (find k m) [ none ↦ none | some l ↦ some (map f l) ]
  unfolding find map_lists
  find-map_lists f k [] = refl
  find-map_lists f k ((j, l) ∷ m) = ground (arith, find-map_lists f k m)

  only-only : (domain : QString) (m : Dict (List V)) → only domain (only domain m) ≡ only domain m
  unfolding only value has find
  only-only domain m = ground (arith, eq_text_iff domain domain)

  only-map_lists :
      (f : V → V) (domain : QString) (m : Dict (List V))
      → only domain (map_lists f m) ≡ map_lists f (only domain m)
  unfolding only value has find map_lists
  only-map_lists f domain m = ground (arith, find-map_lists f domain m)

names_channel-clear_formula :
    (name : QString) (l : List PlotLayoutChannel)
    → names_channel name (map clear_formula l) ≡ names_channel name l
unfolding names_channel clear_formula
names_channel-clear_formula name [] = refl
names_channel-clear_formula name (c ∷ r) =
    ap (eq_text c.name name ||◌) (names_channel-clear_formula name r)

module _ {V : Type 0} where
  value-map_lists :
      (f : V → V) (m : Dict (List V)) (k : QString) → value (map_lists f m) k ≡ map f (value m k)
  unfolding value
  value-map_lists f m k = ground (arith, find-map_lists f k m)

map-clear_commute :
    (l : List PlotLayoutChannel)
    → map clear_formula (map clear_axis l) ≡ map clear_axis (map clear_formula l)
unfolding clear_formula clear_axis
map-clear_commute [] = refl
map-clear_commute (c ∷ r) =
    ap (record c { axis_index = pos 0; formula = [] } ∷◌) (map-clear_commute r)

map_lists-clear_commute :
    (m : Dict (List PlotLayoutChannel))
    → map_lists clear_formula (map_lists clear_axis m)
      ≡ map_lists clear_axis (map_lists clear_formula m)
unfolding map_lists
map_lists-clear_commute [] = refl
map_lists-clear_commute ((k, l) ∷ m) =
    ap₂ (λ (x : List PlotLayoutChannel) (r : Dict (List PlotLayoutChannel)). (k, x) ∷ r)
      (map-clear_commute l) (map_lists-clear_commute m)

-- The view that is kept is kept again.
xy_again :
    (view xy domain : QString) (l : List PlotLayoutChannel) (b : Bool)
    → b ≡ (eq_text view (codes "xy") && not (is_empty xy) && names_channel xy l)
    → (eq_text (if b then codes "xy" else domain) (codes "xy")
        && not (is_empty (if b then xy else []))
        && names_channel (if b then xy else []) l)
      ≡ b
unfolding eq_text
xy_again view xy domain l true h = ground arith
xy_again view xy domain l false h = ground arith

if_twice :
    (b : Bool) (t : QString) → (if b then (if b then t else []) else []) ≡ (if b then t else [])
if_twice true t = refl
if_twice false t = refl

module _ {Real : Type 0} where
  keeps_xy-restricted :
      (domain : QString) (p : PlotLayout Real)
      → keeps_xy domain (restricted_to_domain domain p) ≡ keeps_xy domain p
  unfolding restricted_to_domain keeps_xy
  keeps_xy-restricted domain p =
      let b = keeps_xy domain p in
      ap
        (λ m.
          eq_text (if b then codes "xy" else domain) (codes "xy")
          && not (is_empty (if b then p.xy_channel else []))
          && names_channel (if b then p.xy_channel else []) (value m domain))
        (only-only domain p.channels_by_domain)
      ∙ xy_again p.view_mode p.xy_channel domain (value (only domain p.channels_by_domain) domain) b
          refl

  keeps_xy-strip_formulas :
      (domain : QString) (p : PlotLayout Real)
      → keeps_xy domain (strip_formulas p) ≡ keeps_xy domain p
  unfolding strip_formulas keeps_xy
  keeps_xy-strip_formulas domain p =
      ap
        (λ l.
          eq_text p.view_mode (codes "xy")
          && not (is_empty p.xy_channel)
          && names_channel p.xy_channel l)
        (ap (λ m. value m domain) (only-map_lists clear_formula domain p.channels_by_domain)
          ∙ value-map_lists clear_formula (only domain p.channels_by_domain) domain)
      ∙ ap (λ b. eq_text p.view_mode (codes "xy") && not (is_empty p.xy_channel) && b)
          (names_channel-clear_formula p.xy_channel
            (value (only domain p.channels_by_domain) domain))

  -- Restricting a layout to a domain it is restricted to already changes nothing, the view and the X
  -- channel included.
  pub restricted_to_domain-idempotent :
      (domain : QString) (p : PlotLayout Real)
      → restricted_to_domain domain (restricted_to_domain domain p) ≡ restricted_to_domain domain p
  unfolding restricted_to_domain
  restricted_to_domain-idempotent domain p =
      let a = only-only domain p.axes_by_domain in
      let c = only-only domain p.channels_by_domain in
      let k = keeps_xy-restricted domain p in
      let x =
        ap (λ b. if b then (if keeps_xy domain p then p.xy_channel else []) else []) k
        ∙ if_twice (keeps_xy domain p) p.xy_channel in
      λ i. record {
        version = p.version;
        view_mode = if k i then codes "xy" else domain;
        xy_channel = x i;
        axes_by_domain = a i;
        channels_by_domain = c i;
        axes = value (a i) domain;
        channels = value (c i) domain;
      }

  -- Stripping the formulas before the restriction to a domain gives the same layout as stripping
  -- them after it.
  pub restricted_to_domain-strip_formulas :
      (domain : QString) (p : PlotLayout Real)
      → restricted_to_domain domain (strip_formulas p)
        ≡ strip_formulas (restricted_to_domain domain p)
  unfolding restricted_to_domain strip_formulas
  restricted_to_domain-strip_formulas domain p =
      let c = only-map_lists clear_formula domain p.channels_by_domain in
      let k = keeps_xy-strip_formulas domain p in
      let v =
        ap (λ m. value m domain) c
        ∙ value-map_lists clear_formula (only domain p.channels_by_domain) domain in
      λ i. record {
        version = p.version;
        view_mode = if k i then codes "xy" else domain;
        xy_channel = if k i then p.xy_channel else [];
        axes_by_domain = only domain p.axes_by_domain;
        channels_by_domain = c i;
        axes = value (only domain p.axes_by_domain) domain;
        channels = v i;
      }

  -- Stripping the formulas and stripping the layout give the same in either order.
  pub strip_formulas-strip_layout :
      (p : PlotLayout Real) → strip_formulas (strip_layout p) ≡ strip_layout (strip_formulas p)
  unfolding strip_formulas strip_layout
  strip_formulas-strip_layout p =
      let c = map-clear_commute p.channels in
      let m = map_lists-clear_commute p.channels_by_domain in
      λ i. record {
        version = p.version;
        view_mode = codes "time";
        xy_channel = [];
        axes_by_domain = [];
        channels_by_domain = m i;
        axes = [];
        channels = c i;
      }

  -- A restricted layout has the axes and the channels of its domain, as they were, under the
  -- domain's key and no other, and its flat lists are the domain's.
  pub restricted_to_domain_lem :
      (domain k : QString) (p : PlotLayout Real)
      → let r = restricted_to_domain domain p in
        (find k r.axes_by_domain
          ≡ (if eq_text domain k then find domain p.axes_by_domain else none))
        × (find k r.channels_by_domain
            ≡ (if eq_text domain k then find domain p.channels_by_domain else none))
        × (r.axes ≡ value p.axes_by_domain domain)
        × (r.channels ≡ value p.channels_by_domain domain)
  unfolding restricted_to_domain
  restricted_to_domain_lem domain k p = (
    find-only domain k p.axes_by_domain,
    find-only domain k p.channels_by_domain,
    value-only domain p.axes_by_domain,
    value-only domain p.channels_by_domain,
  )
