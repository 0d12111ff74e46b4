-- ===== src/Ads/TypeTable/Expand/Laws.antt =====
-- What the expansion of a symbol guarantees (`expandInto` and `expandWithTypeTable` of
-- ads/src/AdsTypeTable.cpp), whatever the type table holds.
use mathlib.Core.Path
use scope_analyser.Prelude.{
  ℕ, zero, suc, ◌≤◌, ◌<◌, ◌≡◌, refl, ap, ◌∙◌, true, false, List, [], ◌∷◌, ◌++◌, arith, length, leb,
  All, is_empty, if◌then◌else◌, Bool-cases, leb→le, Option-cases, inl, inr,
}
use scope_analyser.Prelude.Text.{QString}
use scope_analyser.Prelude.Dict.{find}
use scope_analyser.Core.Types.{size_of}
use scope_analyser.Ads.Interfaces.{TextOps, AdsSymbol}
use scope_analyser.Ads.TypeNames.{ArrayDim, data_type_from_plc_type_name, parse_array_type_name}
use scope_analyser.Ads.TypeNames.Declaration.{counts_of}
use scope_analyser.Ads.TypeNames.Odometer.{advance}
use scope_analyser.Ads.TypeTable.{AdsTypeMember, AdsTypeEntry, AdsTypeTable}
use scope_analyser.Ads.TypeTable.Expand.{
  Expansion, Walk, skip, truncate, full, remove_last, noted, scalar_type, scalar_leaf, bit_leaf,
  element_loop, expand_array_elements, expand_unlisted, member_loop, expand_scalar,
  expand_array_entry, expand_composite, expand_entry, expand_named, expand_into, depth_cap, is_self,
  initial, expanded, expand_with_type_table, size_of_type_name,
}
use scope_analyser.Ads.TypeTable.Expand.Step.{
  IsRecordable, Step, none_added, Step-trans, noted-Step, truncate-Step, push_leaf-Step,
  branch-Step, remove_last-append,
}

module _ (qt : TextOps) (types : AdsTypeTable) (root : AdsSymbol) (cap : ℕ) where
  abbrev IsSound : Walk → Type 0
  IsSound walk =
      (name type_name : QString) (offset : ℕ) (ex : Expansion)
      → Step cap ex (walk name type_name offset ex)

  -- What holds of the step that is taken while there is room holds of the guarded one.
  guarded :
      (ex next : Expansion)
      → (length ex.out < cap → Step cap ex next)
      → Step cap ex (if full qt types root cap ex then truncate ex else next)
  unfolding full
  guarded ex next h = elim (Bool-cases (leb cap (length ex.out))) [
    | inl e ↦ rw e (truncate-Step cap ex (omega (arith, leb→le cap (length ex.out) e)))
    | inr e ↦ rw e (h (ground arith))
  ]

  element_loop-Step :
      (walk : Walk)
      → IsSound walk
      → (name : QString) (dims : List ArrayDim) (elem : QString) (elem_size offset rounds n : ℕ)
        (idx : List ℕ) (ex : Expansion)
      → Step cap ex
          (element_loop qt types root cap walk name dims elem elem_size offset rounds n idx ex)
  unfolding element_loop
  element_loop-Step walk w name dims elem elem_size offset zero n idx ex = none_added cap ex
  element_loop-Step walk w name dims elem elem_size offset (suc rounds) n idx ex =
      guarded ex _ (λ _. Step-trans cap ex _ _ (w _ _ _ ex) (
        element_loop-Step walk w name dims elem elem_size offset rounds (suc n)
          (advance (counts_of dims) idx) _))

  skip-Step : (note : QString) (ex : Expansion) → Step cap ex (skip note ex)
  skip-Step note ex = noted-Step cap ex (skip note ex) refl refl refl

  elements-Step :
      (walk : Walk)
      → IsSound walk
      → (name : QString) (dims : List ArrayDim) (elem : QString) (elem_size offset : ℕ)
        (ex : Expansion)
      → Step cap ex
          (expand_array_elements qt types root cap walk name dims elem elem_size offset ex)
  unfolding expand_array_elements
  elements-Step walk w name dims elem elem_size offset ex =
      branch-Step cap ex _ _ _ (skip-Step name ex)
        (element_loop-Step walk w name dims elem elem_size offset _ 0 _ ex)

  unlisted-Step :
      (walk : Walk)
      → IsSound walk
      → (name type_name : QString) (offset : ℕ) (ex : Expansion) → length ex.out < cap
      → Step cap ex (expand_unlisted qt types root cap walk name type_name offset ex)
  unfolding expand_unlisted
  unlisted-Step walk w name type_name offset ex room =
      elim (Option-cases (data_type_from_plc_type_name qt type_name)) [
        | inr (dt, e) ↦
            rw (expand_unlisted, e)
              (push_leaf-Step cap (scalar_leaf qt types root cap name type_name dt offset) ex
                (refl, refl, refl) room)
        | inl e ↦ elim (Option-cases (parse_array_type_name qt type_name)) [
          | inl p ↦ rw (expand_unlisted, e, p) dropped
          | inr (info, p) ↦
              elim (Option-cases (size_of_type_name qt types root cap info.element_type_name)) [
                | inl z ↦ rw (expand_unlisted, e, p, z) dropped
                | inr (elem_size, z) ↦
                    rw (expand_unlisted, e, p, z)
                      (elements-Step walk w name info.dims info.element_type_name elem_size offset
                        ex)
              ]
        ]
      ]
    where
      dropped : Step cap ex (if is_empty type_name then ex else skip (noted name type_name) ex)
      dropped = branch-Step cap ex _ _ _ (none_added cap ex) (skip-Step _ ex)

  member_loop-Step :
      (walk : Walk)
      → IsSound walk
      → (name : QString) (offset : ℕ) (members : List AdsTypeMember) (ex : Expansion)
      → Step cap ex (member_loop qt types root cap walk name offset members ex)
  unfolding member_loop size_of
  member_loop-Step walk w name offset [] ex = none_added cap ex
  member_loop-Step walk w name offset (m ∷ r) ex =
      branch-Step cap ex _ _ _
        (guarded ex _ (λ room.
          Step-trans cap ex _ _
            (push_leaf-Step cap (bit_leaf qt types root cap name m offset) ex (refl, refl, refl)
              room)
            (member_loop-Step walk w name offset r _)))
        (Step-trans cap ex _ _ (w _ _ _ ex) (member_loop-Step walk w name offset r _))

  scalar-Step :
      (name : QString) (t : AdsTypeEntry) (offset : ℕ) (ex : Expansion)
      → length ex.out < cap
      → Step cap ex (expand_scalar qt types root cap name t offset ex)
  unfolding expand_scalar
  scalar-Step name t offset ex room = elim (Option-cases (scalar_type qt t)) [
    | inl e ↦ rw (expand_scalar, e) (skip-Step _ ex)
    | inr (d, e) ↦ rw (expand_scalar, e) (push_leaf-Step cap _ ex (refl, refl, refl) room)
  ]

  array_entry-Step :
      (walk : Walk)
      → IsSound walk
      → (name : QString) (t : AdsTypeEntry) (offset : ℕ) (ex : Expansion)
      → Step cap ex (expand_array_entry qt types root cap walk name t offset ex)
  unfolding expand_array_entry
  array_entry-Step walk w name t offset ex =
      branch-Step cap ex _ _ _ (skip-Step name ex)
        (elements-Step walk w name t.dims t.element_type_name _ offset ex)

  composite-Step :
      (walk : Walk)
      → IsSound walk
      → (name : QString) (t : AdsTypeEntry) (offset : ℕ) (ex : Expansion)
      → Step cap ex (expand_composite qt types root cap walk name t offset ex)
  unfolding expand_composite
  composite-Step walk w name t offset ex =
      branch-Step cap ex _ _ _ (array_entry-Step walk w name t offset ex)
        (member_loop-Step walk w name offset t.members ex)

  -- A step of the branch with one type more on its stack is, once that type is removed, a step.
  popped :
      (key : QString) (ex inner : Expansion)
      → Step cap (record ex { type_stack = ex.type_stack ++ key ∷ [] }) inner
      → Step cap ex (record inner { type_stack = remove_last inner.type_stack })
  popped key ex inner s = record {
    added = s.added;
    appended = s.appended;
    recordable = s.recordable;
    stack_kept = ap remove_last s.stack_kept ∙ remove_last-append ex.type_stack key;
    within = s.within;
    honest = s.honest;
  }

  entry-Step :
      (walk : Walk)
      → IsSound walk
      → (t : AdsTypeEntry) (name type_name : QString) (offset : ℕ) (ex : Expansion)
      → length ex.out < cap
      → Step cap ex (expand_entry qt types root cap walk t name type_name offset ex)
  unfolding expand_entry
  entry-Step walk w t name type_name offset ex room =
      branch-Step cap ex _ _ _ (scalar-Step name t offset ex room) (
        branch-Step cap ex _ _ _ (noted-Step cap ex _ refl refl refl)
          (popped (qt.to_upper type_name) ex _ (composite-Step walk w name t offset _)))

  -- One level of the expansion is a step, however many levels are left.
  expand_into-Step : (left : ℕ) → IsSound (expand_into qt types root cap left)
  unfolding expand_into expand_named
  expand_into-Step zero name type_name offset ex =
      guarded ex _ (λ _. noted-Step cap ex _ refl refl refl)
  expand_into-Step (suc left) name type_name offset ex = guarded ex _ (λ room.
      elim (Option-cases (find (qt.to_upper type_name) types)) [
        | inl e ↦
            rw (expand_named, e)
              (unlisted-Step _ (expand_into-Step left) name type_name offset ex room)
        | inr (t, e) ↦
            rw (expand_named, e)
              (entry-Step _ (expand_into-Step left) t name type_name offset ex room)
      ])

  Bool-clash : false ≡ true → ⊥
  Bool-clash e = cc

  expanded-Step : Step cap (initial qt types root cap) (expanded qt types root cap)
  unfolding expanded
  expanded-Step =
      expand_into-Step (suc (depth_cap qt types root cap)) root.name root.type_name
        root.index_offset _

  -- Whatever the type table holds: the expansion of a symbol lists no more leaves than its cap,
  -- every leaf is one element of a recordable type with that type's size, a cut is reported only of
  -- an expansion that has filled its cap, and no type is left on the branch's stack.
  pub expand_with_type_table-IsRecordable :
      let result = expand_with_type_table qt types root cap in
      (length result.0 ≤ cap)
      × All IsRecordable result.0
      × (result.1.truncated ≡ true → length result.1.out ≡ cap)
      × (result.1.type_stack ≡ [])
  unfolding expand_with_type_table
  expand_with_type_table-IsRecordable =
      let s = expanded-Step in
      let within = s.within (omega arith) in
      let all = Path.subst (All IsRecordable) (Path.sym s.appended) s.recordable in
      (
        elim (Bool-cases (is_self qt types root cap (expanded qt types root cap).out)) [
          | inl e ↦ rw e (omega arith)
          | inr e ↦ rw e within
        ],
        elim (Bool-cases (is_self qt types root cap (expanded qt types root cap).out)) [
          | inl e ↦ rw e tt
          | inr e ↦ rw e all
        ],
        λ cut. omega (arith, within, s.honest (λ x. absurd (Bool-clash x)) cut),
        s.stack_kept,
      )
