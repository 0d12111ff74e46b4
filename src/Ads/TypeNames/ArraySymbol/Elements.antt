-- ===== src/Ads/TypeNames/ArraySymbol/Elements.antt =====
-- The elements that `expandArraySymbol` of ads/src/AdsTypeNames.cpp lists.
use mathlib.Core.Path
use native.Mathlib.Nat.{zero-add, mod-le}
use scope_analyser.Prelude.{
  ℕ, zero, suc, ◌+◌, ◌*◌, ◌%◌, ◌<◌, ◌≤◌, ◌≡◌, refl, ◌∙◌, ap, true, none, some, List, arith, length,
  get_elem?,
}
use scope_analyser.Prelude.Int.{ℤ, pos, eqb_ℤ, ◌*ℤ◌}
use scope_analyser.Prelude.Words.{u32_mod, u64_mod, add32}
use scope_analyser.Prelude.Text.{QString}
use scope_analyser.Core.Types.{DataType, size_of, size_of_bounds}
use scope_analyser.Ads.Interfaces.{TextOps, AdsSymbol}
use scope_analyser.Ads.TypeNames.{
  ArrayDim, ArrayTypeInfo, parse_array_type_name, data_type_from_plc_type_name,
}
use scope_analyser.Ads.TypeNames.Declaration.{counts_of, parse-IsDeclared}
use scope_analyser.Ads.TypeNames.Odometer.{
  advance, after, product, rank, InBounds, zeros, after-rank, zeros-InBounds, rank-zeros,
}
use scope_analyser.Ads.TypeNames.ArraySymbol.{
  element, elements, expand_declared, expand_array_symbol, element_name,
}

times_exact : (a t s : ℕ) → eqb_ℤ (pos a) (pos t *ℤ pos s) ≡ true → a ≡ t * s
unfolding ◌*ℤ◌
times_exact a t s h = ground arith

room : (i s t : ℕ) → i < t → i * s + s ≤ t * s
room i s t h = grind arith

offset_exact :
    (o i s t size : ℕ)
    → 1 ≤ s
    → i < t
    → size ≡ t * s
    → o + size ≤ u32_mod
    → (o + i * s % u32_mod) % u32_mod ≡ o + i * s
offset_exact o i s t size pos_s h e low = omega (arith, room i s t h)

module _ (qt : TextOps) where
  pub length-elements :
      (sym : AdsSymbol) (t : QString) (e : DataType) (dims : List ArrayDim) (rounds n : ℕ)
      (idx : List ℕ)
      → length (elements qt sym t e dims rounds n idx) ≡ rounds
  unfolding elements
  length-elements sym t e dims zero n idx = refl
  length-elements sym t e dims (suc rounds) n idx =
      ap suc (length-elements sym t e dims rounds (suc n) (advance (counts_of dims) idx))

  get_elem?-elements :
      (sym : AdsSymbol) (t : QString) (e : DataType) (dims : List ArrayDim) (rounds n : ℕ)
      (idx : List ℕ) (i : ℕ)
      → i < rounds
      → get_elem? (elements qt sym t e dims rounds n idx) i
        ≡ some (element qt sym t e dims (n + i) (after i (counts_of dims) idx))
  unfolding elements after
  get_elem?-elements sym t e dims zero n idx i h = elim h [ ]
  get_elem?-elements sym t e dims (suc rounds) n idx zero h =
      ap (λ m. some (element qt sym t e dims m idx)) (omega arith)
  get_elem?-elements sym t e dims (suc rounds) n idx (suc i) h =
      get_elem?-elements sym t e dims rounds (suc n) (advance (counts_of dims) idx) i (omega arith)
      ∙ ap
          (λ m.
            some
              (element qt sym t e dims m (after i (counts_of dims) (advance (counts_of dims) idx))))
          (omega arith)

  -- The elements of a declaration, as many as asked for and no more than the product of the counts:
  -- the i-th at row-major place i with every index in bounds.
  pub declared-elements :
      (sym : AdsSymbol) (t : QString) (e : DataType) (dims : List ArrayDim) (rounds i : ℕ)
      → i < rounds
      → rounds ≤ product (counts_of dims)
      → (idx : List ℕ) × InBounds (counts_of dims) idx
        × (rank (counts_of dims) idx ≡ i)
        × (get_elem? (elements qt sym t e dims rounds 0 (zeros (counts_of dims))) i
            ≡ some (element qt sym t e dims i idx))
  declared-elements sym t e dims rounds i h few =
      let counts = counts_of dims in
      let start = rank-zeros counts in
      let (r, b) =
        after-rank i counts (zeros counts) (zeros-InBounds counts (omega (arith, h, few)))
          (omega (arith, start, h, few)) in
      (
        after i counts (zeros counts),
        b,
        omega (arith, r, start),
        get_elem?-elements sym t e dims rounds 0 (zeros counts) i h
            ∙ ap (λ m. some (element qt sym t e dims m (after i counts (zeros counts))))
                (zero-add i),
      )

  expand-declared :
      (sym : AdsSymbol) (m : ℤ) (info : ArrayTypeInfo) (e : DataType)
      → parse_array_type_name qt sym.type_name ≡ some info
      → data_type_from_plc_type_name qt info.element_type_name ≡ some e
      → expand_array_symbol qt sym m ≡ expand_declared qt sym info e m
  unfolding expand_array_symbol
  expand-declared sym m info e parsed typed = ground arith

  -- What an expansion with no warning has passed, and its elements.
  expand_declared-quiet :
      (sym : AdsSymbol) (info : ArrayTypeInfo) (e : DataType) (m : ℤ) (t : ℕ)
      → info.total_elements ≡ pos t
      → (expand_declared qt sym info e m).1 ≡ none
      → ((expand_declared qt sym info e m).0
          ≡ elements qt sym info.element_type_name e info.dims t 0 (zeros (counts_of info.dims)))
        × (sym.size ≡ t * size_of e)
  unfolding expand_declared
  expand_declared-quiet sym info e m t total quiet =
      (ground arith, times_exact sym.size t (size_of e) (ground arith))

  -- For an array symbol of a declaration and an element type that are understood, whose bytes lie
  -- below 2^32, and whose expansion raises no warning: the elements tile the symbol's bytes, and the
  -- i-th is the one at row-major place i, named by its subscripts, with every index in bounds, i
  -- element sizes behind the symbol's own offset and of the element's size.
  pub expand_array_symbol-elements :
      (sym : AdsSymbol) (max_elements : ℤ) (info : ArrayTypeInfo) (e : DataType) (i : ℕ)
      → parse_array_type_name qt sym.type_name ≡ some info
      → data_type_from_plc_type_name qt info.element_type_name ≡ some e
      → (expand_array_symbol qt sym max_elements).1 ≡ none
      → i < length (expand_array_symbol qt sym max_elements).0
      → sym.index_offset + sym.size ≤ u32_mod
      → (idx : List ℕ) × InBounds (counts_of info.dims) idx
        × (rank (counts_of info.dims) idx ≡ i)
        × (x : AdsSymbol) × (get_elem? (expand_array_symbol qt sym max_elements).0 i ≡ some x)
        × (x.name ≡ element_name qt sym.name info.dims idx)
        × (x.index_offset ≡ sym.index_offset + i * size_of e)
        × (x.size ≡ size_of e)
        × (length (expand_array_symbol qt sym max_elements).0 * size_of e ≡ sym.size)
  unfolding element add32
  expand_array_symbol-elements sym m info e i parsed typed quiet h low =
      let w = parse-IsDeclared qt sym.type_name parsed in
      let t = product (counts_of info.dims) % u64_mod in
      let same = expand-declared sym m info e parsed typed in
      let (listed, size) =
        expand_declared-quiet sym info e m t w.total_is (ap (λ r. r.1) (Path.sym same) ∙ quiet) in
      let list = ap (λ r. r.0) same ∙ listed in
      let long = ap length list ∙ length-elements sym info.element_type_name e info.dims t 0 _ in
      let (idx, b, r, at) =
        declared-elements sym info.element_type_name e info.dims t i (omega (arith, h, long))
          (mod-le _ _) in
      (
        idx,
        b,
        r,
        element qt sym info.element_type_name e info.dims i idx,
        ap (λ l. get_elem? l i) list ∙ at,
        refl,
        offset_exact sym.index_offset i (size_of e) t sym.size (size_of_bounds e).0
            (omega (arith, h, long)) size low,
        refl,
        rw long (Path.sym size),
      )
