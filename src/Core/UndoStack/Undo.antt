-- ===== src/Core/UndoStack/Undo.antt =====
-- Undo and redo of UndoStack.h against the abstract history.
use native.Mathlib.Nat.{add-zero}
use scope_analyser.Prelude.{
  ℕ, suc, ◌+◌, ◌≤◌, ◌≡◌, refl, ◌∙◌, ap, true, false, some, List, [], ◌∷◌, arith, length, get_elem?,
  ltb, lt→ltb, ◌-◌, take, ◌≢◌,
}
use scope_analyser.Prelude.Int.{ℤ, pos}
use scope_analyser.Core.UndoStack.{
  Tool, UndoStack, Action, undo, redo, commit, can_undo, can_redo, apply_snapshot, apply_current,
  at_cursor, pred_cursor, suc_cursor,
}
use scope_analyser.Core.UndoStack.Zipper.{
  History, record_snapshot, step_back, step_forward, rev_onto,
}
use scope_analyser.Core.UndoStack.Laws.{get_elem?-rev_onto, length-rev_onto}
use scope_analyser.Core.UndoStack.Refinement.{
  commit-refines, Represents, replay, apply_snapshot-hist, apply_snapshot-doc,
}

abbrev pub history {ℓ} : {Snap : Type ℓ} → List Snap → Snap → List Snap → History Snap
history ps n f = record { past = ps; now = n; future = f }

-- The snapshot that undo or redo restores, if any, on the document.
abbrev pub restored {ℓ} : {Doc Snap : Type ℓ} → (Snap → List (Action Doc)) → List Snap → Doc → Doc
restored restore [] d = d
restored restore (s ∷ _) d = replay (restore s) d

not_lt : (a b : ℕ) → b ≤ a → ltb a b ≡ false
not_lt a b h = ground arith

can_undo_iff {ℓ} :
    {Snap : Type ℓ} (h : UndoStack Snap) (k : ℕ) → h.cursor ≡ pos (suc k) → can_undo h ≡ true
unfolding can_undo
can_undo_iff h k e = rw (e, can_undo) (ground arith)

can_undo_first {ℓ} : {Snap : Type ℓ} (h : UndoStack Snap) → h.cursor ≡ pos 0 → can_undo h ≡ false
unfolding can_undo
can_undo_first h e = rw (e, can_undo) (ground arith)

can_redo_lem {ℓ} :
    {Snap : Type ℓ} (h : UndoStack Snap) (k : ℕ)
    → h.cursor ≡ pos k
    → can_redo h ≡ ltb (suc k) (length h.snaps)
unfolding can_redo
can_redo_lem h k e = rw (e, can_redo) (ground arith)

module _ {ℓ} {Doc Snap : Type ℓ} (capture : Doc → Snap) (restore : Snap → List (Action Doc)) where
  abbrev moved : Tool Doc Snap → ℤ → Tool Doc Snap
  moved t c = record t { hist = record t.hist { cursor = c } }

  -- Applying the entry under the cursor, once that entry is known.
  apply_current-some :
      (t : Tool Doc Snap) (s : Snap)
      → at_cursor t.hist.snaps t.hist.cursor ≡ some s
      → apply_current capture restore t ≡ apply_snapshot capture restore s t
  unfolding apply_current
  apply_current-some t s e = rw (e, apply_current)

  at_present :
      (ps : List Snap) (n : Snap) (f : List Snap) {l : List Snap}
      → l ≡ rev_onto ps (n ∷ f)
      → get_elem? l (length ps) ≡ some n
  at_present ps n f e = rw e (rw add-zero at (get_elem?-rev_onto ps 0 (n ∷ f)))

  -- Moving the cursor onto an entry and applying it.
  apply-refines :
      (t : Tool Doc Snap) (ps : List Snap) (n : Snap) (f : List Snap)
      → t.hist.snaps ≡ rev_onto ps (n ∷ f)
      → suc (length ps + length f) ≤ t.hist.max_depth
      → 2 ≤ t.hist.max_depth
      → Represents (apply_current capture restore (moved t (pos (length ps)))).hist (history ps n f)
        × ((apply_current capture restore (moved t (pos (length ps)))).doc
            ≡ replay (restore n) t.doc)
  apply-refines t ps n f e fits two =
      let t' = moved t (pos (length ps)) in
      simp
        (
          apply_current-some t' n (at_present ps n f e),
          apply_snapshot-hist capture restore n t',
          apply_snapshot-doc capture restore n t',
        )
        ((record { entries = e; at_now = refl; settled = refl; fits = fits; two = two }, refl))

  undo_nothing : (t : Tool Doc Snap) → can_undo t.hist ≡ false → undo capture restore t ≡ t
  unfolding undo
  undo_nothing t h = rw (h, undo)

  undo_some :
      (t : Tool Doc Snap)
      → can_undo t.hist ≡ true
      → undo capture restore t ≡ apply_current capture restore (moved t (pred_cursor t.hist.cursor))
  unfolding undo
  undo_some t h = rw (h, undo)

  undo_moves :
      (t : Tool Doc Snap) (k : ℕ)
      → t.hist.cursor ≡ pos (suc k)
      → undo capture restore t ≡ apply_current capture restore (moved t (pos k))
  undo_moves t k e =
      undo_some t (can_undo_iff t.hist k e)
      ∙ ap (λ c. apply_current capture restore (moved t (pred_cursor c))) e

  redo_nothing : (t : Tool Doc Snap) → can_redo t.hist ≡ false → redo capture restore t ≡ t
  unfolding redo
  redo_nothing t h = rw (h, redo)

  redo_some :
      (t : Tool Doc Snap)
      → can_redo t.hist ≡ true
      → redo capture restore t ≡ apply_current capture restore (moved t (suc_cursor t.hist.cursor))
  unfolding redo
  redo_some t h = rw (h, redo)

  redo_moves :
      (t : Tool Doc Snap) (k : ℕ)
      → can_redo t.hist ≡ true
      → t.hist.cursor ≡ pos k
      → redo capture restore t ≡ apply_current capture restore (moved t (pos (suc k)))
  redo_moves t k h e =
      redo_some t h ∙ ap (λ c. apply_current capture restore (moved t (suc_cursor c))) e

  -- Undo in a valid history steps the abstract history back, and replays the snapshot it steps to
  -- on the document; with no past it changes nothing.
  undo_on :
      (t : Tool Doc Snap) (ps : List Snap) (n : Snap) (f : List Snap)
      → Represents t.hist (history ps n f)
      → Represents (undo capture restore t).hist (step_back ps n f)
        × ((undo capture restore t).doc ≡ restored restore ps t.doc)
  undo_on t [] n f r =
      let same = undo_nothing t (can_undo_first t.hist r.at_now) in simp same (r, refl)
  undo_on t (p ∷ ps) n f r =
      simp (undo_moves t (length ps) r.at_now)
        (apply-refines t ps p (n ∷ f) r.entries (omega (arith, r.fits)) r.two)

  redo_on :
      (t : Tool Doc Snap) (ps : List Snap) (n : Snap) (f : List Snap)
      → Represents t.hist (history ps n f)
      → Represents (redo capture restore t).hist (step_forward ps n f)
        × ((redo capture restore t).doc ≡ restored restore f t.doc)
  redo_on t ps n [] r =
      let same = redo_nothing t (can_redo_lem t.hist (length ps) r.at_now ∙ tail_full) in
      simp same (r, refl)
    where
      tail_full : ltb (suc (length ps)) (length t.hist.snaps) ≡ false
      tail_full = rw r.entries (not_lt _ _ (omega (arith, length-rev_onto ps (n ∷ []))))
  redo_on t ps n (s ∷ f) r =
      simp
        (redo_moves t (length ps) (can_redo_lem t.hist (length ps) r.at_now ∙ tail_left) r.at_now)
        (apply-refines t (n ∷ ps) s f r.entries (omega (arith, r.fits)) r.two)
    where
      tail_left : ltb (suc (length ps)) (length t.hist.snaps) ≡ true
      tail_left = rw r.entries (lt→ltb _ _ (omega (arith, length-rev_onto ps (n ∷ s ∷ f))))

  -- On a history that represents an abstract one, `undo` represents the abstract one a step back,
  -- whatever the restoring code commits, and the document is changed by the edits that restore the
  -- entry stepped to, and not at all when there is no past.
  pub undo-refines :
      (t : Tool Doc Snap) (z : History Snap)
      → Represents t.hist z
      → Represents (undo capture restore t).hist (step_back z.past z.now z.future)
        × ((undo capture restore t).doc ≡ restored restore z.past t.doc)
  undo-refines t z r = undo_on t z.past z.now z.future r

  -- On a history that represents an abstract one, `redo` represents the abstract one a step forward,
  -- whatever the restoring code commits, and the document is changed by the edits that restore the
  -- entry stepped to, and not at all when there is nothing to redo.
  pub redo-refines :
      (t : Tool Doc Snap) (z : History Snap)
      → Represents t.hist z
      → Represents (redo capture restore t).hist (step_forward z.past z.now z.future)
        × ((redo capture restore t).doc ≡ restored restore z.future t.doc)
  redo-refines t z r = redo_on t z.past z.now z.future r

pred_depth : (m : ℕ) → 2 ≤ m → m - 1 ≡ suc (m - 2)
pred_depth m h = omega arith

step_over {ℓ} :
    {Snap : Type ℓ} (m : ℕ) (z : History Snap) (s : Snap)
    → 2 ≤ m
    → step_back (take (m - 1) (z.now ∷ z.past)) s [] ≡ history (take (m - 2) z.past) z.now (s ∷ [])
step_over m z s h = rw (pred_depth m h)

module _ {ℓ} {Doc Snap : Type ℓ} (capture : Doc → Snap) (restore : Snap → List (Action Doc)) where
  -- On a history that represents an abstract one, `undo` after `commit` represents the entry that
  -- was the present as the present again, with the committed snapshot alone to redo, and the most
  -- recent of the past, two fewer than the depth at most.
  pub undo-commit :
      (t : Tool Doc Snap) (z : History Snap)
      → Represents t.hist z
      → Represents
          (undo capture restore (commit capture restore t)).hist
          (history (take (t.hist.max_depth - 2) z.past) z.now (capture t.doc ∷ []))
  undo-commit t z r = rw (step_over (t.hist.max_depth) z (capture t.doc) r.two) at (
      (undo-refines capture restore (commit capture restore t)
        (record_snapshot t.hist.max_depth (capture t.doc) z)
        (commit-refines capture restore t z r)).0)

  -- On a history that represents an abstract one with a past, `redo` after `undo` represents the
  -- same abstract history.
  pub redo-undo :
      (t : Tool Doc Snap) (z : History Snap)
      → Represents t.hist z
      → z.past ≢ []
      → Represents (redo capture restore (undo capture restore t)).hist z
  redo-undo t z r ne = on_past z.past r ne
    where
      on_past :
          (ps : List Snap)
          → Represents t.hist (record z { past = ps })
          → ps ≢ []
          → Represents (redo capture restore (undo capture restore t)).hist (record z { past = ps })
      on_past [] r' ne' = absurd (ne' refl)
      on_past (p ∷ ps) r' ne' =
          (redo-refines capture restore (undo capture restore t) (history ps p (z.now ∷ z.future))
            (undo-refines capture restore t (history (p ∷ ps) z.now z.future) r').0).0
