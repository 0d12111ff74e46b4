-- ===== src/Core/SignalStore/Consistency.antt =====
-- Every operation of SignalStore.cpp keeps the store consistent.
use scope_analyser.Prelude.{
  ℕ, ◌≡◌, refl, ◌∙◌, true, false, none, some, List, [], ◌∷◌, ◌++◌, map, arith, length, get_elem?,
  if◌then◌else◌, get_elem?-append_left, get_elem?-append_last, lt-length_of_get_elem?, inl, inr,
  Bool-cases, Option-cases,
}
use scope_analyser.Prelude.Text.{QString, eq_text, eq_text_iff}
use scope_analyser.Core.Signal.{Signal}
use scope_analyser.Core.SignalStore.{
  SignalStore, channel_removed, rename_found, cloned, rename, remove, clear, get, contains,
  channel_names, size,
}
use scope_analyser.Prelude.Dict.{
  find, has, erase, find-insert_or_assign, find-erase, insert_or_assign-Unique, erase-Unique,
}
use scope_analyser.Core.SignalStore.Laws.{IsConsistent, cloned-meta, rename-grants, grants}

-- A signal allocated behind the heap leaves every live pointer on its signal.
pub live-kept :
    (heap : List Signal) (c : Signal) (p : ℕ) {s : Signal}
    → get_elem? heap p ≡ some s
    → get_elem? (heap ++ c ∷ []) p ≡ some s
live-kept heap c p e = get_elem?-append_left heap (c ∷ []) p (lt-length_of_get_elem? heap p e) ∙ e

rename_found-IsConsistent :
    (from to : QString) (s : Signal) (st : SignalStore)
    → IsConsistent st
    → IsConsistent (rename_found from to s st)
unfolding rename_found
rename_found-IsConsistent from to s st c = record {
  unique =
      insert_or_assign-Unique to (length st.heap) (erase from st.map)
        (erase-Unique from st.map c.unique);
  named = λ k q f. elim (Bool-cases (eq_text to k)) [
    | inl same ↦ (
      cloned to s,
      ground (
        arith,
        find-insert_or_assign to k (length st.heap) (erase from st.map),
        get_elem?-append_last st.heap (cloned to s),
      ),
      cloned-meta to s ∙ (eq_text_iff to k).0 same,
    )
    | inr other ↦
        let (old, live, name) = c.named k q (
          ground (
            arith,
            find-insert_or_assign to k (length st.heap) (erase from st.map),
            find-erase from k st.map,
          )) in
        (old, live-kept st.heap (cloned to s) q live, name)
  ];
}

module _ (trimmed : QString → QString) (from to : QString) (st : SignalStore) where
  renamed :
      (p : ℕ) (s : Signal)
      → grants trimmed from to st ≡ true
      → find from st.map ≡ some p
      → get_elem? st.heap p ≡ some s
      → (rename trimmed from to st).0 ≡ rename_found from to s st
  unfolding rename contains has
  renamed p s g f e = ground arith

  absent-grants : find from st.map ≡ none → grants trimmed from to st ≡ false
  unfolding contains has
  absent-grants f = ground arith

  -- A rename, granted or not, keeps the store consistent: one entry for each name, and every name
  -- leads to a live signal of that name.
  pub rename-IsConsistent : IsConsistent st → IsConsistent (rename trimmed from to st).0
  rename-IsConsistent c = elim (Option-cases (find from st.map)) [
    | inl absent ↦ simp ((rename-grants trimmed from to st c).1 (absent-grants absent)) c
    | inr (p, f) ↦
        let (s, live, _) = c.named from p f in
        elim (Bool-cases (grants trimmed from to st)) [
          | inr refused ↦ simp ((rename-grants trimmed from to st c).1 refused) c
          | inl granted ↦
              simp (renamed p s granted f live) (rename_found-IsConsistent from to s st c)
        ]
  ]

-- `remove` makes the name, and no other, lead nowhere, and announces it exactly when it was stored.
pub remove_lem :
    (name k : QString) (st : SignalStore)
    → (get k (remove name st) ≡ (if eq_text name k then none else get k st))
      × ((remove name st).emitted
          ≡ st.emitted ++ (if contains name st then channel_removed name ∷ [] else []))
unfolding get remove contains
remove_lem name k st = (find-erase name k st.map, refl)

pub remove-IsConsistent :
    (name : QString) (st : SignalStore) → IsConsistent st → IsConsistent (remove name st)
unfolding remove
remove-IsConsistent name st c = record {
  unique = erase-Unique name st.map c.unique;
  named = λ k q f. c.named k q (ground (arith, find-erase name k st.map));
}

-- `clear` empties the store and announces the removal of each channel that it named, once each.
pub clear_lem :
    (k : QString) (st : SignalStore)
    → (get k (clear st) ≡ none)
      × (size (clear st) ≡ 0)
      × ((clear st).emitted ≡ st.emitted ++ map channel_removed (channel_names st))
unfolding get clear size find channel_names
clear_lem k st = (refl, refl, refl)
