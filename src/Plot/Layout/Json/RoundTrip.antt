-- ===== src/Plot/Layout/Json/RoundTrip.antt =====
-- A layout that is written and read is the same layout, in the form that the fallback gives it
-- (plot/src/PlotLayout.cpp).
use mathlib.Core.Path.{subst}
use scope_analyser.Prelude.{
  ◌≡◌, ◌⊎◌, inl, inr, refl, ap, sym, ◌∙◌, Bool, true, false, not, ◌&&◌, Option, none, some, List,
  [], ◌∷◌, ◌++◌, All, arith, map, is_empty, if◌then◌else◌,
}
use scope_analyser.Prelude.Int.{ℤ, pos}
use scope_analyser.Prelude.Text.{QString, codes, eq_text, eq_text_iff}
use scope_analyser.Prelude.Dict.{Dict, find}
use scope_analyser.Prelude.Json.{
  JsonOps, JsonLaws, value, value-missing, text_field, int_field, real_field, optional,
  optional_field,
}
use scope_analyser.Plot.Layout.{PlotLayoutAxis, PlotLayoutChannel}
use scope_analyser.Plot.Layout.Json.{
  axis_to_json, parse_axis, channel_to_json, parse_channel, lists_to_json, parse_all, parse_lists,
  text_unless,
}

abbrev pub AllLists : {V : Type 0} → (V → Type 0) → Dict (List V) → Type 0
AllLists P [] = Unit
AllLists P ((_, l) ∷ m) = All P l × AllLists P m

module _ {Real Json : Type 0} (json : JsonOps Real Json) (zero_real : Real)
    (greater : Real → Real → Bool) (laws : JsonLaws json) where
  -- A range that ascends, or none.
  abbrev pub IsRanged : PlotLayoutAxis Real → Type 0
  IsRanged a =
      ((a.has_range ≡ true) × (greater a.max a.min ≡ true))
      ⊎ ((a.has_range ≡ false) × (a.min ≡ zero_real) × (a.max ≡ zero_real))

  abbrev axis : QString → QString → Real → Real → Bool → PlotLayoutAxis Real
  axis label side min max has_range = record {
    label = label;
    side = side;
    min = min;
    max = max;
    has_range = has_range;
  }

  ranged_axis :
      (label side : QString) (min max : Real)
      → greater max min ≡ true
      → parse_axis json zero_real greater (axis_to_json json (axis label side min max true))
        ≡ some (axis label side min max true)
  unfolding parse_axis axis_to_json find eq_text
  ranged_axis label side min max h =
      rw
        (
          text_field json laws _ (codes "label") [] label refl,
          text_field json laws _ (codes "side") (codes "left") side refl,
          laws.member-object _ (codes "min"),
          laws.member-object _ (codes "max"),
          real_field json laws _ (codes "min") zero_real min refl,
          real_field json laws _ (codes "max") zero_real max refl,
          h,
        )
        refl

  plain_axis :
      (label side : QString)
      → parse_axis json zero_real greater
          (axis_to_json json (axis label side zero_real zero_real false))
        ≡ some (axis label side zero_real zero_real false)
  unfolding parse_axis axis_to_json find eq_text
  plain_axis label side =
      rw
        (
          text_field json laws _ (codes "label") [] label refl,
          text_field json laws _ (codes "side") (codes "left") side refl,
          laws.member-object _ (codes "min"),
        )
        refl

  pub parse_axis-axis_to_json :
      (a : PlotLayoutAxis Real)
      → IsRanged a
      → parse_axis json zero_real greater (axis_to_json json a) ≡ some a
  parse_axis-axis_to_json a (inl (e, h)) =
      subst
        (λ (b : PlotLayoutAxis Real).
          parse_axis json zero_real greater (axis_to_json json b) ≡ some b)
        (λ i. axis a.label a.side a.min a.max (sym e i)) (ranged_axis a.label a.side a.min a.max h)
  parse_axis-axis_to_json a (inr (e, low, high)) =
      subst
        (λ (b : PlotLayoutAxis Real).
          parse_axis json zero_real greater (axis_to_json json b) ≡ some b)
        (λ i. axis a.label a.side (sym low i) (sym high i) (sym e i)) (plain_axis a.label a.side)

  pub parse_all-map :
      {V : Type 0} (to : V → Json) (from : Json → Option V) (P : V → Type 0)
      → ((v : V) → P v → from (to v) ≡ some v)
      → (l : List V) → All P l
      → parse_all json from (map to l) ≡ some l
  parse_all-map to from P h [] k = refl
  parse_all-map to from P h (v ∷ r) k = rw (h v k.0, parse_all-map to from P h r k.1) refl

  pub parse_lists-lists_to_json :
      {V : Type 0} (to : V → Json) (from : Json → Option V) (P : V → Type 0)
      → ((v : V) → P v → from (to v) ≡ some v)
      → (m : Dict (List V)) → AllLists P m
      → parse_lists json from (lists_to_json json to m) ≡ some m
  parse_lists-lists_to_json to from P h [] k = refl
  parse_lists-lists_to_json to from P h ((key, l) ∷ m) k =
      rw
        (
          laws.elements-array (map to l),
          parse_all-map to from P h l k.0,
          parse_lists-lists_to_json to from P h m k.1,
        )
        refl

  -- The fields of a channel, its domain left out or not.
  abbrev fields : QString → ℤ → QString → Bool → QString → Dict Json
  fields name axis_index formula b domain =
      (codes "name", json.text name)
      ∷ (codes "axis", json.integer axis_index)
      ∷ (text_unless json (is_empty formula) (codes "formula") formula
          ++ text_unless json b (codes "domain") domain)

  formula_found :
      (name : QString) (n : ℤ) (formula : QString) (b : Bool) (domain : QString)
      → find (codes "formula") (fields name n formula b domain)
        ≡ optional json laws (fields name n formula b domain) (codes "formula") formula
  unfolding find eq_text
  formula_found name n [] true domain = refl
  formula_found name n [] false domain = refl
  formula_found name n (c ∷ r) b domain = refl

  domain_found :
      (name : QString) (n : ℤ) (formula : QString) (b : Bool) (domain : QString)
      → find (codes "domain") (fields name n formula b domain)
        ≡ (if b then none else some (json.text domain))
  unfolding find eq_text
  domain_found name n [] true domain = refl
  domain_found name n [] false domain = refl
  domain_found name n (c ∷ r) true domain = refl
  domain_found name n (c ∷ r) false domain = refl

  -- The domain is left out only where the reader puts it back.
  domain_read :
      (name : QString) (n : ℤ) (formula : QString) (b : Bool) (domain : QString)
      → (b ≡ true → domain ≡ codes "time")
      → value json json.as_text
          (json.object (fields name n formula b domain))
          (codes "domain")
          (codes "time")
        ≡ some domain
  domain_read name n formula true domain h =
      value-missing json laws json.as_text _ (codes "domain") (codes "time")
        (domain_found name n formula true domain)
      ∙ ap some (sym (h refl))
  domain_read name n formula false domain h =
      text_field json laws _ (codes "domain") (codes "time") domain
        (domain_found name n formula false domain)

  left_out :
      (domain : QString)
      → is_empty domain ≡ false
      → not (not (is_empty domain) && not (eq_text domain (codes "time"))) ≡ true
      → domain ≡ codes "time"
  left_out domain h e = ground (arith, eq_text_iff domain (codes "time"))

  pub parse_channel-channel_to_json :
      (c : PlotLayoutChannel)
      → is_empty c.domain ≡ false
      → parse_channel json (channel_to_json json c) ≡ some c
  unfolding parse_channel channel_to_json find eq_text
  parse_channel-channel_to_json c h =
      rw
        (
          text_field json laws _ (codes "name") [] c.name refl,
          int_field json laws _ (codes "axis") (pos 0) c.axis_index refl,
          optional_field json laws _ (codes "formula") c.formula
              (formula_found c.name c.axis_index c.formula _ c.domain),
          domain_read c.name c.axis_index c.formula _ c.domain (left_out c.domain h),
        )
        refl
