-- ===== src/Ads/TypeTable/Expand.antt =====
-- The expansion of one symbol through the type table (`expandInto`, `expandArrayElements`,
-- `expandWithTypeTable` of ads/src/AdsTypeTable.cpp). What the source mutates behind its
-- `Expansion&` is the state passed on. The depth is counted down: `left` is the number of levels
-- that the cap still allows, so the recursion is structural. A negative leaf cap is the cap 0.
pub mod Step
pub mod Laws
use scope_analyser.Prelude.{
  ℕ, zero, suc, ◌+◌, ◌*◌, ◌/◌, ◌%◌, min, max, Bool, true, false, not, ◌&&◌, ◌||◌, Option, none,
  some, List, [], ◌∷◌, ◌++◌, ◌==◌, ltb, leb, length, take, ◌-◌, is_empty, if◌then◌else◌,
}
use scope_analyser.Prelude.Int.{ℤ, pos, pos_part, leb_ℤ, ◌*ℤ◌}
use scope_analyser.Prelude.Words.{mul64, u32_mod, add32, mul32}
use scope_analyser.Prelude.Text.{QString, codes, contains, eq_text}
use scope_analyser.Prelude.Dict.{find}
use scope_analyser.Core.Types.{DataType, size_of}
use scope_analyser.Core.Types
use scope_analyser.Ads.Interfaces.{TextOps, AdsSymbol}
use scope_analyser.Ads.TypeNames.{
  ArrayDim, count, map_ads_data_type, data_type_from_plc_type_name, parse_array_type_name,
}
use scope_analyser.Ads.TypeNames.Declaration.{counts_of}
use scope_analyser.Ads.TypeNames.Odometer.{advance, zeros}
use scope_analyser.Ads.TypeNames.ArraySymbol.{element_name}
use scope_analyser.Ads.TypeTable.{AdsTypeMember, AdsTypeEntry, AdsTypeTable}

-- `kAdsigrpPlcRwBit`
abbrev pub plc_rw_bit : ℕ
plc_rw_bit = 0x4041

-- The mutable part of `Expansion`.
pub record Expansion : Type 0 where
  pub out : List AdsSymbol
  pub skipped : List QString
  pub type_stack : List QString
  pub truncated : Bool
  pub too_deep : Bool
  pub recursive : Bool

-- `removeLast`
abbrev pub remove_last : List QString → List QString
remove_last [] = []
remove_last (x ∷ []) = []
remove_last (x ∷ y ∷ r) = x ∷ remove_last (y ∷ r)

-- "name (why)"
abbrev pub noted : QString → QString → QString
noted name why = name ++ (codes " (" ++ (why ++ codes ")"))

abbrev pub skip : QString → Expansion → Expansion
skip note ex = record ex { skipped = ex.skipped ++ note ∷ [] }

abbrev pub push_leaf : AdsSymbol → Expansion → Expansion
push_leaf leaf ex = record ex { out = ex.out ++ leaf ∷ [] }

abbrev pub truncate : Expansion → Expansion
truncate ex = record ex { truncated = true }

-- One level of the expansion: of a name, its type's name and an offset.
abbrev pub Walk : Type 0
Walk = QString → QString → ℕ → Expansion → Expansion

-- The product of the counts, which wraps at 64 bits.
unfoldable pub count_all : List ArrayDim → ℤ → ℤ
count_all [] total = total
count_all (d ∷ ds) total = count_all ds (mul64 total (count d))

abbrev first_of {ℓ} : {A : Type ℓ} → Option A → Option A → Option A
first_of (some a) b = some a
first_of none b = b

-- Prefer the raw code, then the entry's own name, then its base type's.
unfoldable pub scalar_type : TextOps → AdsTypeEntry → Option DataType
scalar_type qt t = first_of (map_ads_data_type t.ads_data_type) (
    first_of (data_type_from_plc_type_name qt t.name)
      (data_type_from_plc_type_name qt t.element_type_name))

module _ (qt : TextOps) (types : AdsTypeTable) (root : AdsSymbol) (max_leaves : ℕ) where
  -- `full()`
  unfoldable pub full : Expansion → Bool
  full ex = leb max_leaves (length ex.out)

  unfoldable pub size_of_type_name : QString → Option ℕ
  size_of_type_name type_name = elim (data_type_from_plc_type_name qt type_name) [
    | some dt ↦ some (size_of dt)
    | none ↦ elim (find (qt.to_upper type_name) types) [
      | none ↦ none
      | some t ↦ if ltb 0 t.size then some t.size else none
    ]
  ]

  -- A recordable leaf at `offset`.
  abbrev pub scalar_leaf : QString → QString → DataType → ℕ → AdsSymbol
  scalar_leaf name type_name dt offset = record root {
    name = name;
    type_name = type_name;
    data_type = dt;
    unsupported = false;
    size = size_of dt;
    array_len = 1;
    index_offset = offset;
  }

  abbrev pub bit_leaf : QString → AdsTypeMember → ℕ → AdsSymbol
  bit_leaf name m offset = record root {
    name = name ++ (codes "." ++ m.name);
    type_name = codes "BIT";
    data_type = Types.bool;
    unsupported = false;
    size = 1;
    array_len = 1;
    index_group = plc_rw_bit;
    index_offset = add32 (mul32 offset 8) m.offset;
  }

  -- The loop over the elements, from the `n`-th with the indices `idx`.
  unfoldable pub element_loop :
      Walk → QString → List ArrayDim → QString → ℕ → ℕ → ℕ → ℕ → List ℕ → Expansion → Expansion
  element_loop walk name dims elem elem_size offset zero n idx ex = ex
  element_loop walk name dims elem elem_size offset (suc rounds) n idx ex =
      let at = add32 offset (mul32 (n % u32_mod) elem_size) in
      let walked = walk (element_name qt name dims idx) elem at ex in
      let rest =
        element_loop walk name dims elem elem_size offset rounds (suc n)
          (advance (counts_of dims) idx) walked in
      if full ex then truncate ex else rest

  -- `expandArrayElements`; `walk` expands at the next depth.
  unfoldable pub expand_array_elements :
      Walk → QString → List ArrayDim → QString → ℕ → ℕ → Expansion → Expansion
  expand_array_elements walk name dims elem elem_size offset ex =
      let total = count_all dims (pos 1) in
      if leb_ℤ total (pos 0) || elem_size == 0
      then skip name ex
      else element_loop walk name dims elem elem_size offset (pos_part total) 0
          (zeros (counts_of dims)) ex

  -- A type that the table does not hold: a scalar, or an array by its declaration.
  unfoldable pub expand_unlisted : Walk → Walk
  expand_unlisted walk name type_name offset ex = elim (data_type_from_plc_type_name qt type_name) [
    | some dt ↦ push_leaf (scalar_leaf name type_name dt offset) ex
    | none ↦ elim (parse_array_type_name qt type_name) [
      | none ↦ if is_empty type_name then ex else skip (noted name type_name) ex
      | some info ↦ elim (size_of_type_name info.element_type_name) [
        | none ↦ if is_empty type_name then ex else skip (noted name type_name) ex
        | some elem_size ↦
            expand_array_elements walk name info.dims info.element_type_name elem_size offset ex
      ]
    ]
  ]

  -- The loop over the members; a bit that finds the list full ends it.
  unfoldable pub member_loop : Walk → QString → ℕ → List AdsTypeMember → Expansion → Expansion
  member_loop walk name offset [] ex = ex
  member_loop walk name offset (m ∷ r) ex =
      let after_bit = member_loop walk name offset r (push_leaf (bit_leaf name m offset) ex) in
      let after_member =
        member_loop walk name offset r
          (walk (name ++ (codes "." ++ m.name)) m.type_name (add32 offset m.offset) ex) in
      if m.bit_value then (if full ex then truncate ex else after_bit) else after_member

  -- A scalar or an alias of the table.
  unfoldable pub expand_scalar : QString → AdsTypeEntry → ℕ → Expansion → Expansion
  expand_scalar name t offset ex = elim (scalar_type qt t) [
    | none ↦ skip (noted name t.name) ex
    | some d ↦
        push_leaf (record (scalar_leaf name t.name d offset) { ads_data_type = t.ads_data_type }) ex
  ]

  -- An array of the table: its elements' size from its own.
  unfoldable pub expand_array_entry : Walk → QString → AdsTypeEntry → ℕ → Expansion → Expansion
  expand_array_entry walk name t offset ex =
      let total = count_all t.dims (pos 1) in
      if leb_ℤ total (pos 0) || t.size == 0
      then skip name ex
      else expand_array_elements walk name t.dims t.element_type_name
          (t.size / pos_part total % u32_mod) offset ex

  abbrev is_composite : AdsTypeEntry → Bool
  is_composite t = not (is_empty t.dims) || not (is_empty t.members)

  -- An array or a structure, with its type already on the stack.
  unfoldable pub expand_composite : Walk → QString → AdsTypeEntry → ℕ → Expansion → Expansion
  expand_composite walk name t offset ex =
      if not (is_empty t.dims)
      then expand_array_entry walk name t offset ex
      else member_loop walk name offset t.members ex

  -- A type of the table. Whatever way the expansion of a composite ends, its type leaves the stack.
  unfoldable pub expand_entry : Walk → AdsTypeEntry → Walk
  expand_entry walk t name type_name offset ex =
      let key = qt.to_upper type_name in
      if not (is_composite t)
      then expand_scalar name t offset ex
      else if contains ex.type_stack key
      then record (skip (noted name (type_name ++ codes ", contains itself")) ex) {
        recursive = true;
      }
      else let inner =
          expand_composite walk name t offset
            (record ex { type_stack = ex.type_stack ++ key ∷ [] }) in
        record inner { type_stack = remove_last inner.type_stack }

  unfoldable pub expand_named : Walk → Walk
  expand_named walk name type_name offset ex = elim (find (qt.to_upper type_name) types) [
    | none ↦ expand_unlisted walk name type_name offset ex
    | some t ↦ expand_entry walk t name type_name offset ex
  ]

  -- `expandInto`, with `left` levels allowed below and at this one.
  unfoldable pub expand_into : ℕ → Walk
  expand_into zero name type_name offset ex =
      if full ex then truncate ex else record (skip name ex) { too_deep = true }
  expand_into (suc left) name type_name offset ex =
      if full ex then truncate ex else expand_named (expand_into left) name type_name offset ex

  -- `kExpandDepthCeiling` bounds the cap that is derived from the table.
  unfoldable pub depth_cap : ℕ
  depth_cap = max 64 (min 512 (length types + 8))

  abbrev pub initial : Expansion
  initial = record {
    out = [];
    skipped = [];
    type_stack = [];
    truncated = false;
    too_deep = false;
    recursive = false;
  }

  -- The result's state, before a symbol that expands to itself alone is dropped.
  unfoldable pub expanded : Expansion
  expanded = expand_into (suc depth_cap) root.name root.type_name root.index_offset initial

  abbrev pub is_self : List AdsSymbol → Bool
  is_self (x ∷ []) = eq_text x.name root.name
  is_self _ = false

  -- `expandWithTypeTable`: the leaves, and the state that its report is made of.
  unfoldable pub expand_with_type_table : List AdsSymbol × Expansion
  expand_with_type_table = (if is_self expanded.out then [] else expanded.out, expanded)

-- The parts of a report's note; the words are left out.
pub data ReportNote : Type 0 where
  more_values : QString → ℕ → ReportNote
  nests_deeper : QString → ℕ → ReportNote
  contains_itself : QString → ReportNote
  -- the first few left out, and the number of the others
  not_recordable : List QString → ℕ → ReportNote

abbrev note_if : Bool → ReportNote → List ReportNote
note_if true n = n ∷ []
note_if false n = []

-- The note of `expandWithTypeTable`'s report, for a symbol of the name.
unfoldable pub report_notes : QString → ℕ → ℕ → Expansion → List ReportNote
report_notes name max_leaves cap ex =
    note_if ex.truncated (more_values name max_leaves)
    ++ (note_if ex.too_deep (nests_deeper name cap)
        ++ (note_if ex.recursive (contains_itself name)
            ++ note_if (not (is_empty ex.skipped))
                (not_recordable (take 8 ex.skipped) (length ex.skipped - 8))))
