-- ===== src/Core/SignalStore/Laws.antt =====
-- What each operation of SignalStore.cpp does to the channels and to the events emitted.
use scope_analyser.Prelude.{
  ℕ, ◌<◌, ◌≡◌, ◌≢◌, refl, sym, ◌∙◌, ap, Bool, true, false, Option, none, some, [], ◌∷◌, ◌++◌, arith,
  length, get_elem?, is_empty, if◌then◌else◌, inl, inr, Bool-cases, Option-cases, not, ◌&&◌,
  get_elem?-append_left, get_elem?-append_last, lt-length_of_get_elem?,
}
use scope_analyser.Prelude.Text.{QString, eq_text, eq_text_iff}
use scope_analyser.Core.Signal.{Signal, new, append, snapshot_for_read}
use scope_analyser.Core.Signal.Laws.{IsWellFormed, append-snapshot, append-meta}
use scope_analyser.Core.SignalStore.{
  SignalStore, add_signal, channel_added, channel_removed, channel_renamed, add, cloned, rename,
  get, contains,
}
use scope_analyser.Prelude.Dict.{
  find, has, erase, find-insert_or_assign, find-erase, Unique, insert_or_assign-Unique,
}

-- Under each name stands a live signal that carries the name.
pub record IsConsistent (st : SignalStore) : Type 0 where
  pub unique : Unique st.map
  pub named :
      (k : QString) (p : ℕ)
      → find k st.map ≡ some p
      → (s : Signal) × (get_elem? st.heap p ≡ some s) × (s.meta.name ≡ k)

add-null : (st : SignalStore) → add none st ≡ st
unfolding add
add-null st = refl

add-live :
    (st : SignalStore) (p : ℕ) (s : Signal)
    → get_elem? st.heap p ≡ some s
    → add (some p) st ≡ add_signal p s st
unfolding add
add-live st p s e = rw (e, add)

add-dead : (st : SignalStore) (p : ℕ) → get_elem? st.heap p ≡ none → add (some p) st ≡ st
unfolding add
add-dead st p e = rw (e, add)

add_signal-IsConsistent :
    (p : ℕ) (s : Signal) (st : SignalStore)
    → get_elem? st.heap p ≡ some s
    → IsConsistent st
    → IsConsistent (add_signal p s st)
unfolding add_signal
add_signal-IsConsistent p s st e c = record {
  unique = insert_or_assign-Unique s.meta.name p st.map c.unique;
  named = λ k q f. elim (Bool-cases (eq_text s.meta.name k)) [
    | inl same ↦
        (s, ground (arith, find-insert_or_assign s.meta.name k p st.map), (eq_text_iff _ _).0 same)
    | inr other ↦ c.named k q (ground (arith, find-insert_or_assign s.meta.name k p st.map))
  ];
}

cloned-append :
    (to : QString) (s : Signal)
    → cloned to s
      ≡ append
          (snapshot_for_read s).timestamps
          (snapshot_for_read s).values
          (snapshot_for_read s).count
          (new (record s.meta { name = to }))
unfolding cloned append
cloned-append to s = ground arith

-- `add` of a live signal: its name leads to it, the other names to what they did, the heap is
-- untouched, and the name's removal is announced exactly when a channel was replaced, before its
-- addition.
pub add_lem :
    (st : SignalStore) (p : ℕ) (s : Signal) (k : QString)
    → get_elem? st.heap p ≡ some s
    → (get k (add (some p) st) ≡ (if eq_text s.meta.name k then some p else get k st))
      × ((add (some p) st).heap ≡ st.heap)
      × ((add (some p) st).emitted
          ≡ st.emitted
            ++ ((if contains s.meta.name st then channel_removed s.meta.name ∷ [] else [])
                ++ channel_added s.meta.name ∷ []))
unfolding add get contains
add_lem st p s k e = simp (add-live st p s e, find-insert_or_assign) (refl, refl, refl)

-- `add`, of a null pointer too, keeps the store consistent: one entry for each name, and every name
-- leads to a live signal of that name.
pub add-IsConsistent : (q : Option ℕ) (st : SignalStore) → IsConsistent st → IsConsistent (add q st)
add-IsConsistent none st c = simp (add-null st) c
add-IsConsistent (some p) st c = elim (Option-cases (get_elem? st.heap p)) [
  | inl dead ↦ simp (add-dead st p dead) c
  | inr (s, live) ↦ simp (add-live st p s live) (add_signal-IsConsistent p s st live c)
]

-- The clone of a well-formed signal is the signal itself under the new name, sample for sample.
pub cloned_lem :
    (to : QString) (s : Signal)
    → IsWellFormed s
    → cloned to s ≡ record s { meta = record s.meta { name = to } }
cloned_lem to s w = cloned-append to s ∙ append-snapshot (record s.meta { name = to }) s refl w

pub cloned-meta : (to : QString) (s : Signal) → (cloned to s).meta.name ≡ to
cloned-meta to s =
    ap (λ c. c.meta.name) (cloned-append to s) ∙ ap (λ m. m.name) (append-meta _ _ _ _)

module _ (trimmed : QString → QString) (from to : QString) (st : SignalStore) where
  -- When a rename is granted.
  abbrev pub grants : Bool
  grants =
      not (eq_text from to)
      && not (is_empty (trimmed to))
      && contains from st
      && not (contains to st)

  -- In a consistent store, a rename is granted exactly when the names differ, the new one is not
  -- blank, the old one is stored and the new one is not; a refused rename changes nothing.
  pub rename-grants :
      IsConsistent st
      → ((rename trimmed from to st).1 ≡ grants)
        × (grants ≡ false → (rename trimmed from to st).0 ≡ st)
  unfolding rename contains has
  rename-grants c = elim (Option-cases (find from st.map)) [
    | inl absent ↦ ground arith
    | inr (p, e) ↦ let (s, live, _) = c.named from p e in ground arith
  ]

  -- The parts of the store after a granted rename of a live signal.
  rename-parts :
      (k : QString) {p : ℕ} {s : Signal}
      → grants ≡ true
      → find from st.map ≡ some p
      → get_elem? st.heap p ≡ some s
      → ((rename trimmed from to st).0.heap ≡ st.heap ++ cloned to s ∷ [])
        × (get k (rename trimmed from to st).0 ≡ (
            if eq_text to k
            then some (length st.heap)
            else if eq_text from k
            then none
            else get k st))
        × ((rename trimmed from to st).0.emitted ≡ st.emitted ++ channel_renamed from to ∷ [])
  unfolding get rename contains has
  rename-parts k g f e = ground (
    arith,
    find-insert_or_assign to k (length st.heap) (erase from st.map),
    find-erase from k st.map,
  )

  other_way : grants ≡ true → eq_text to from ≡ false
  other_way g = elim (Bool-cases (eq_text to from)) [
    | inr e ↦ e
    | inl e ↦
        absurd (differ (from_granted g) ((eq_text_iff from to).1 (sym ((eq_text_iff to from).0 e))))
  ]
    where
      from_granted : grants ≡ true → eq_text from to ≡ false
      from_granted h = ground arith

      differ : eq_text from to ≡ false → eq_text from to ≡ true → ⊥
      differ h k = cc

  -- A granted rename of a well-formed signal: the new name leads to a new signal that is the old one
  -- but for its name, the old one stays as it was for those who hold it, the old name leads to
  -- nothing, any other name to what it did, and the one event is the rename.
  pub rename_lem :
      {p : ℕ} {s : Signal}
      → grants ≡ true
      → find from st.map ≡ some p
      → get_elem? st.heap p ≡ some s
      → IsWellFormed s
      → (q : ℕ) × (get to (rename trimmed from to st).0 ≡ some q)
        × (get_elem? (rename trimmed from to st).0.heap q
            ≡ some (record s { meta = record s.meta { name = to } }))
        × (q ≢ p)
        × (get_elem? (rename trimmed from to st).0.heap p ≡ some s)
        × (get from (rename trimmed from to st).0 ≡ none)
        × ((k : QString) → k ≢ from → k ≢ to → get k (rename trimmed from to st).0 ≡ get k st)
        × ((rename trimmed from to st).0.emitted ≡ st.emitted ++ channel_renamed from to ∷ [])
  rename_lem {p} {s} g f e w =
      let (heap, at_to, events) = rename-parts to g f e in
      let (_, at_from, _) = rename-parts from g f e in
      let same : eq_text to to ≡ true = (eq_text_iff to to).1 refl in
      let self : eq_text from from ≡ true = (eq_text_iff from from).1 refl in
      let below : p < length st.heap = lt-length_of_get_elem? st.heap p e in
      (
        length st.heap,
        at_to ∙ rw same refl,
        ap (λ h. get_elem? h (length st.heap)) heap
            ∙ get_elem?-append_last st.heap (cloned to s)
            ∙ ap some (cloned_lem to s w),
        λ at_end. omega (arith, below),
        ap (λ h. get_elem? h p) heap ∙ get_elem?-append_left st.heap (cloned to s ∷ []) p below ∙ e,
        at_from ∙ rw (other_way g, self) refl,
        λ k other new.
            (rename-parts k g f e).1
            ∙ rw (unequal to k (λ q. new (sym q)), unequal from k (λ q. other (sym q))) refl,
        events,
      )
    where
      unequal : (a b : QString) → (a ≢ b) → eq_text a b ≡ false
      unequal a b h = elim (Bool-cases (eq_text a b)) [
        | inr e ↦ e
        | inl e ↦ absurd (h ((eq_text_iff a b).0 e))
      ]
