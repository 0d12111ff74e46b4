-- ===== src/Ads/TypeNames/Declaration.antt =====
-- What the parser of array declarations in ads/src/AdsTypeNames.cpp guarantees of its result.
use mathlib.Core.Path.{subst, subst₂}
use scope_analyser.Prelude.{
  some_inj, none≢some, ℕ, suc, ◌*◌, ◌-◌, ◌%◌, ◌<◌, ◌≡◌, refl, ◌∙◌, ap, sym, true, false, none, some,
  List, [], ◌∷◌, ◌++◌, arith, map, Option-cases, Bool-cases, inl, inr,
}
use scope_analyser.Prelude.Int.{ℤ, pos, pos_part, leb_ℤ, ltb_ℤ, ◌+ℤ◌, ◌-ℤ◌}
use scope_analyser.Prelude.Words.{u64_mod, i64_half, mul64, mul64_pos, mod-mul}
use scope_analyser.Prelude.Text.{QString}
use scope_analyser.Ads.Interfaces.{TextOps}
use scope_analyser.Ads.TypeNames.{
  ArrayDim, ArrayTypeInfo, count, parse_dim, parse_dims, declared_from, parse_array_type_name,
}
use scope_analyser.Ads.TypeNames.Odometer.{product}

-- The counts of the dimensions, which the parser left positive.
abbrev pub counts_of : List ArrayDim → List ℕ
counts_of = map (λ d. pos_part (count d))

-- Counts that are positive, and a total that is their product up to the wrap at 2^64, and positive as
-- a signed word.
pub record IsDeclared (dims : List ArrayDim) (total : ℤ) : Type 0 where
  pub total_is : total ≡ pos (product (counts_of dims) % u64_mod)
  pub positive : 0 < product (counts_of dims) % u64_mod
  pub in_range : product (counts_of dims) % u64_mod < i64_half

product-concat :
    (dims : List ArrayDim) (d : ArrayDim)
    → product (counts_of (dims ++ d ∷ [])) ≡ product (counts_of dims) * pos_part (count d)
product-concat [] d = omega arith
product-concat (x ∷ dims) d =
    omega (arith, ap (λ (t : ℕ). pos_part (count x) * t) (product-concat dims d))

-- The bounds ascend, so the count is positive.
HasCount : ArrayDim → Type 0
HasCount d = (n : ℕ) × (count d ≡ pos (suc n))

count_of_bounds : (d : ArrayDim) → ltb_ℤ d.upper d.lower ≡ false → HasCount d
unfolding HasCount count ◌+ℤ◌ ◌-ℤ◌
count_of_bounds d h = (pos_part (count d) - 1, ground arith)

grown :
    (dims : List ArrayDim) (d : ArrayDim) {total : ℤ}
    → IsDeclared dims total
    → HasCount d
    → leb_ℤ (mul64 total (count d)) (pos 0) ≡ false
    → IsDeclared (dims ++ d ∷ []) (mul64 total (count d))
unfolding HasCount
grown dims d {total} w (n, e) fits =
    let p = product (counts_of dims) in
    let (exact, above, below) =
      mul64_pos (p % u64_mod) (suc n)
        (subst₂ (λ t c. leb_ℤ (mul64 t c) (pos 0) ≡ false) w.total_is e fits) in
    let same : product (counts_of (dims ++ d ∷ [])) ≡ p * suc n =
      product-concat dims d ∙ ap (λ c. p * pos_part c) e in
    let reduced : product (counts_of (dims ++ d ∷ [])) % u64_mod ≡ (p % u64_mod) * suc n % u64_mod =
      ap (λ m. m % u64_mod) same ∙ sym (mod-mul p (suc n)) in
    record {
      total_is = (λ i. mul64 (w.total_is i) (e i)) ∙ exact ∙ ap pos (sym reduced);
      positive = rw reduced above;
      in_range = rw reduced below;
    }

module _ (qt : TextOps) where
  parse_dims-nil :
      (dims : List ArrayDim) (total : ℤ) → parse_dims qt [] dims total ≡ some (dims, total)
  unfolding parse_dims
  parse_dims-nil dims total = refl

  parse_dims-bad :
      (part : QString) (r : List QString) (dims : List ArrayDim) (total : ℤ)
      → parse_dim qt part ≡ none
      → parse_dims qt (part ∷ r) dims total ≡ none
  unfolding parse_dims
  parse_dims-bad part r dims total h = rw (h, parse_dims)

  module _ (part : QString) (r : List QString) (dims : List ArrayDim) (total : ℤ) {d : ArrayDim}
      (good : parse_dim qt part ≡ some d) where
    parse_dims-overflow :
        leb_ℤ (mul64 total (count d)) (pos 0) ≡ true → parse_dims qt (part ∷ r) dims total ≡ none
    unfolding parse_dims
    parse_dims-overflow h = rw (good, parse_dims) (rw h)

    parse_dims-next :
        leb_ℤ (mul64 total (count d)) (pos 0) ≡ false
        → parse_dims qt (part ∷ r) dims total
          ≡ parse_dims qt r (dims ++ d ∷ []) (mul64 total (count d))
    unfolding parse_dims
    parse_dims-next h = rw (good, parse_dims) (rw h)

  bounds_ascend :
      (part : QString) {d : ArrayDim} → parse_dim qt part ≡ some d → ltb_ℤ d.upper d.lower ≡ false
  unfolding parse_dim
  bounds_ascend part {d} e = elim (Option-cases (qt.match_dim part)) [
    | inl a ↦ absurd (none≢some (sym (rw (a, parse_dim) refl) ∙ e))
    | inr ((lo, hi), a) ↦ ground arith
  ]

  parse_dim-HasCount : (part : QString) {d : ArrayDim} → parse_dim qt part ≡ some d → HasCount d
  parse_dim-HasCount part {d} e = count_of_bounds d (bounds_ascend part e)

  parse_dims-IsDeclared :
      (parts : List QString) (dims : List ArrayDim) (total : ℤ) {ds : List ArrayDim} {t : ℤ}
      → IsDeclared dims total
      → parse_dims qt parts dims total ≡ some (ds, t)
      → IsDeclared ds t
  parse_dims-IsDeclared [] dims total w e =
      subst (λ p. IsDeclared p.0 p.1) (some_inj (sym (parse_dims-nil dims total) ∙ e)) w
  parse_dims-IsDeclared (part ∷ r) dims total w e = elim (Option-cases (parse_dim qt part)) [
    | inl bad ↦ absurd (none≢some (sym (parse_dims-bad part r dims total bad) ∙ e))
    | inr (d, good) ↦ elim (Bool-cases (leb_ℤ (mul64 total (count d)) (pos 0))) [
      | inl overflow ↦
          absurd (none≢some (sym (parse_dims-overflow part r dims total good overflow) ∙ e))
      | inr fits ↦
          parse_dims-IsDeclared r (dims ++ d ∷ []) (mul64 total (count d))
            (grown dims d w (parse_dim-HasCount part good) fits)
            (sym (parse_dims-next part r dims total good fits) ∙ e)
    ]
  ]

  declared_from-IsDeclared :
      (bounds element : QString) {info : ArrayTypeInfo}
      → declared_from qt bounds element ≡ some info
      → IsDeclared info.dims info.total_elements
  unfolding declared_from
  declared_from-IsDeclared bounds element {info} e =
      elim (Option-cases (parse_dims qt (qt.split b',' bounds) [] (pos 1))) [
        | inl bad ↦ absurd (ground arith)
        | inr ((ds, t), good) ↦
            let w =
              parse_dims-IsDeclared (qt.split b',' bounds) [] (pos 1)
                (record { total_is = refl; positive = omega arith; in_range = omega arith }) good in
            let same_dims : ds ≡ info.dims = ground arith in
            let same_total : t ≡ info.total_elements = ground arith in
            subst₂ IsDeclared same_dims same_total w
      ]

  -- Whatever array declaration the parser accepts: the total is the product of the counts up to the
  -- wrap at 2^64, and it lies between 1 and 2^63 - 1.
  pub parse-IsDeclared :
      (type_name : QString) {info : ArrayTypeInfo}
      → parse_array_type_name qt type_name ≡ some info
      → IsDeclared info.dims info.total_elements
  unfolding parse_array_type_name
  parse-IsDeclared type_name {info} e = elim (Option-cases (qt.match_array type_name)) [
    | inl no_array ↦ absurd (ground arith)
    | inr ((bounds, element), captured) ↦
        declared_from-IsDeclared bounds element {info = info} (ground arith)
  ]
