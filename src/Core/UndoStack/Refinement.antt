-- ===== src/Core/UndoStack/Refinement.antt =====
-- The history of UndoStack.h refines the abstract one: a valid history is a past, a present and a
-- future in one array, and every operation does there what it does on the abstract history.
use native.Mathlib.Numerals.{add-one}
use scope_analyser.Prelude.{
  ℕ, suc, ◌+◌, ◌-◌, ◌≤◌, ◌≡◌, refl, ap, sym, true, false, List, [], ◌∷◌, ◌++◌, arith, length, take,
  is_empty, take, length-take,
}
use scope_analyser.Prelude.Int.{ℤ, pos}
use scope_analyser.Core.UndoStack.{
  Tool, UndoStack, Action, edit, commit_call, cap_depth, commit, reset, push_snapshot, run_actions,
  apply_snapshot, after_cursor,
}
use scope_analyser.Core.UndoStack.Zipper.{History, record_snapshot, rev_onto}
use scope_analyser.Core.UndoStack.Laws.{
  cap_depth-rev_onto, take-rev_onto, length-rev_onto, rev_onto-append, run_actions-hist,
  commit-applying,
}

-- The history holds exactly the entries of the abstract one, within its depth.
pub record Represents {ℓ} {Snap : Type ℓ} (h : UndoStack Snap) (z : History Snap) : Type ℓ where
  pub entries : h.snaps ≡ rev_onto z.past (z.now ∷ z.future)
  pub at_now : h.cursor ≡ pos (length z.past)
  pub settled : h.applying ≡ false
  pub fits : suc (length z.past + length z.future) ≤ h.max_depth
  pub two : 2 ≤ h.max_depth

-- What the restoring code leaves of the document: its edits, in order.
abbrev pub replay {ℓ} : {Doc : Type ℓ} → List (Action Doc) → Doc → Doc
replay [] d = d
replay (edit f ∷ r) d = replay r (f d)
replay (commit_call ∷ r) d = replay r d

is_empty-rev_onto {ℓ} :
    {A : Type ℓ} (ps : List A) (n : A) (f : List A) → is_empty (rev_onto ps (n ∷ f)) ≡ false
is_empty-rev_onto [] n f = refl
is_empty-rev_onto (p ∷ ps) n f = is_empty-rev_onto ps p (n ∷ f)

module _ {ℓ} {Snap : Type ℓ} where
  -- The entries up to the cursor.
  kept :
      (ps : List Snap) (n : Snap) (f : List Snap)
      → take (suc (length ps)) (rev_onto ps (n ∷ f)) ≡ rev_onto (n ∷ ps) []
  kept ps n f = rw (sym (add-one (length ps))) (take-rev_onto ps 1 (n ∷ f))

  -- The array after a commit, from the array before.
  committed :
      (m : ℕ) (ps : List Snap) (n s : Snap) (f : List Snap) {c : ℤ} {l : List Snap}
      → 2 ≤ m
      → c ≡ pos (length ps)
      → l ≡ rev_onto ps (n ∷ f)
      → cap_depth m (take (after_cursor c) l ++ s ∷ []) ≡ rev_onto (take (m - 1) (n ∷ ps)) (s ∷ [])
  committed m ps n s f h e k =
      rw (e, k, kept ps n f, rev_onto-append (n ∷ ps) [] (s ∷ []))
        (cap_depth-rev_onto m (n ∷ ps) (s ∷ []) (omega arith))

  cursor_last : (ps : List Snap) (s : Snap) → length (rev_onto ps (s ∷ [])) - 1 ≡ length ps
  cursor_last ps s = omega (arith, length-rev_onto ps (s ∷ []))

  not_empty :
      {l : List Snap} (ps : List Snap) (n : Snap) (f : List Snap)
      → l ≡ rev_onto ps (n ∷ f)
      → is_empty l ≡ false
  not_empty ps n f e = rw e (is_empty-rev_onto ps n f)

module _ {ℓ} {Doc Snap : Type ℓ} (capture : Doc → Snap) (restore : Snap → List (Action Doc)) where
  commit-push :
      (t : Tool Doc Snap)
      → t.hist.applying ≡ false
      → is_empty t.hist.snaps ≡ false
      → commit capture restore t ≡ push_snapshot capture restore t
  unfolding commit
  commit-push t a e = ground arith

  push-refines :
      (t : Tool Doc Snap) (z : History Snap)
      → Represents t.hist z
      → Represents
          (push_snapshot capture restore t).hist
          (record_snapshot t.hist.max_depth (capture t.doc) z)
  unfolding push_snapshot
  push-refines t z r =
      let array =
        committed t.hist.max_depth z.past z.now (capture t.doc) z.future r.two r.at_now r.entries in
      record {
        entries = array;
        at_now = rw array (ap pos (cursor_last _ (capture t.doc)));
        settled = r.settled;
        fits = omega (arith, r.two, length-take (t.hist.max_depth - 1) (z.now ∷ z.past));
        two = r.two;
      }

  -- On a history at rest whose depth is at least two, `reset` represents the abstract history of the
  -- document's snapshot alone, whatever the history held.
  pub reset-refines :
      (t : Tool Doc Snap)
      → t.hist.applying ≡ false
      → 2 ≤ t.hist.max_depth
      → Represents
          (reset capture restore t).hist
          (record { past = []; now = capture t.doc; future = [] })
  unfolding reset
  reset-refines t idle two = record {
    entries = refl;
    at_now = refl;
    settled = idle;
    fits = omega arith;
    two = two;
  }

  -- On a history that represents an abstract one, `commit` represents the abstract one after the
  -- document's snapshot is recorded: it becomes the present, the redo tail is forgotten, and so is
  -- the oldest past beyond the depth.
  pub commit-refines :
      (t : Tool Doc Snap) (z : History Snap)
      → Represents t.hist z
      → Represents
          (commit capture restore t).hist
          (record_snapshot t.hist.max_depth (capture t.doc) z)
  commit-refines t z r =
      simp (commit-push t r.settled (not_empty z.past z.now z.future r.entries))
        (push-refines t z r)

  -- The history and the document after the snapshot under the cursor is applied.
  pub apply_snapshot-hist :
      (s : Snap) (t : Tool Doc Snap)
      → (apply_snapshot capture restore s t).hist
        ≡ record t.hist { applying = false; notified = t.hist.notified + 1 }
  unfolding apply_snapshot
  apply_snapshot-hist s t = simp (
      run_actions-hist capture restore (restore s)
        (record t { hist = record t.hist { applying = true } }) refl)

  run_actions-doc :
      (acts : List (Action Doc)) (t : Tool Doc Snap)
      → t.hist.applying ≡ true
      → (run_actions capture restore acts t).doc ≡ replay acts t.doc
  unfolding run_actions
  run_actions-doc [] t h = refl
  run_actions-doc (edit f ∷ acts) t h = run_actions-doc acts (record t { doc = f t.doc }) h
  run_actions-doc (commit_call ∷ acts) t h =
      simp (commit-applying capture restore t h) (run_actions-doc acts t h)

  pub apply_snapshot-doc :
      (s : Snap) (t : Tool Doc Snap)
      → (apply_snapshot capture restore s t).doc ≡ replay (restore s) t.doc
  unfolding apply_snapshot
  apply_snapshot-doc s t = run_actions-doc (restore s) _ refl
