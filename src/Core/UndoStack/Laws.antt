-- ===== src/Core/UndoStack/Laws.antt =====
-- Lemmas on the parts of UndoStack.h: the depth cap, the dropped redo tail, and what code that
-- restores a snapshot can do to the history.
use scope_analyser.Prelude.{
  ℕ, zero, suc, ◌+◌, ◌-◌, ◌≤◌, min, ◌≡◌, refl, ◌∙◌, true, List, [], ◌∷◌, ◌++◌, arith, length, take,
  get_elem?, inl, inr, ltb, ltb→lt, lt→ltb, Bool-cases, ◌<◌, false,
}
use native.Mathlib.Nat.{zero-add}
use scope_analyser.Core.UndoStack.{Tool, Action, edit, commit_call, cap_depth, commit, run_actions}
use scope_analyser.Core.UndoStack.Zipper.{rev_onto}

add_shift : (a b : ℕ) → suc a + b ≡ a + suc b
add_shift a b = omega arith

suc_gap : (m n : ℕ) → n < m → m - n ≡ suc (m - suc n)
suc_gap m n h = omega arith

full_lt : (m n : ℕ) → ltb n m ≡ false → m < suc n
full_lt m n h = ground arith

no_gap : (m n : ℕ) → ltb n m ≡ false → m - n ≡ 0
no_gap m n h = ground arith

module _ {ℓ} {A : Type ℓ} where
  take-nil : (n : ℕ) → take n (let e : List A = [] in e) ≡ []
  take-nil zero = refl
  take-nil (suc n) = refl

  pub length-cap_depth : (m : ℕ) (xs : List A) → length (cap_depth m xs) ≡ min m (length xs)
  unfolding cap_depth
  length-cap_depth m [] = omega arith
  length-cap_depth m (x ∷ xs) = ground (arith, length-cap_depth m xs)

  pub cap_depth_fits : (m : ℕ) (xs : List A) → length xs ≤ m → cap_depth m xs ≡ xs
  unfolding cap_depth
  cap_depth_fits m [] h = refl
  cap_depth_fits m (x ∷ xs) h = ground arith

  cap_depth_over :
      (m : ℕ) (p : A) (s : List A)
      → ltb m (suc (length s)) ≡ true
      → cap_depth m (p ∷ s) ≡ cap_depth m s
  unfolding cap_depth
  cap_depth_over m p s h = rw h

  -- A list that holds `m` entries in `s` already keeps nothing of what stands before them.
  pub cap_depth-rev_onto_full :
      (m : ℕ) (ps s : List A) → m ≤ length s → cap_depth m (rev_onto ps s) ≡ cap_depth m s
  cap_depth-rev_onto_full m [] s h = refl
  cap_depth-rev_onto_full m (p ∷ ps) s h =
      cap_depth-rev_onto_full m ps (p ∷ s) (omega arith)
      ∙ cap_depth_over m p s (lt→ltb _ _ (omega arith))

  pub cap_depth-rev_onto :
      (m : ℕ) (ps s : List A)
      → length s ≤ m
      → cap_depth m (rev_onto ps s) ≡ rev_onto (take (m - length s) ps) s
  cap_depth-rev_onto m [] s h = cap_depth_fits m s h ∙ (rw take-nil)
  cap_depth-rev_onto m (p ∷ ps) s h = elim (Bool-cases (ltb (length s) m)) [
    | inl room ↦
        rw (suc_gap m (length s) (ltb→lt _ _ room))
          (cap_depth-rev_onto m ps (p ∷ s) (ltb→lt _ _ room) ∙ refl)
    | inr full ↦ rw (no_gap m (length s) full) (
        cap_depth-rev_onto_full m ps (p ∷ s) (ground arith)
        ∙ cap_depth_over m p s (lt→ltb _ _ (full_lt m (length s) full))
        ∙ cap_depth_fits m s h)
  ]

  pub take-rev_onto :
      (ps : List A) (k : ℕ) (s : List A)
      → take (length ps + k) (rev_onto ps s) ≡ rev_onto ps (take k s)
  take-rev_onto [] k s = rw zero-add
  take-rev_onto (p ∷ ps) k s = rw (add_shift (length ps) k) (take-rev_onto ps (suc k) (p ∷ s))

  pub get_elem?-rev_onto :
      (ps : List A) (k : ℕ) (s : List A) → get_elem? (rev_onto ps s) (length ps + k) ≡ get_elem? s k
  get_elem?-rev_onto [] k s = rw zero-add
  get_elem?-rev_onto (p ∷ ps) k s =
      rw (add_shift (length ps) k) (get_elem?-rev_onto ps (suc k) (p ∷ s))

  pub length-rev_onto : (ps s : List A) → length (rev_onto ps s) ≡ length ps + length s
  length-rev_onto [] s = omega arith
  length-rev_onto (p ∷ ps) s = omega (arith, length-rev_onto ps (p ∷ s))

  pub rev_onto-append : (ps s r : List A) → rev_onto ps s ++ r ≡ rev_onto ps (s ++ r)
  rev_onto-append [] s r = refl
  rev_onto-append (p ∷ ps) s r = rev_onto-append ps (p ∷ s) r

module _ {ℓ} {Doc Snap : Type ℓ} (capture : Doc → Snap) (restore : Snap → List (Action Doc)) where
  -- A commit while a snapshot is applied is no commit.
  pub commit-applying : (t : Tool Doc Snap) → t.hist.applying ≡ true → commit capture restore t ≡ t
  unfolding commit
  commit-applying t h = ground arith

  -- While a snapshot is applied no call of `commit` changes the history.
  pub run_actions-hist :
      (acts : List (Action Doc)) (t : Tool Doc Snap)
      → t.hist.applying ≡ true
      → (run_actions capture restore acts t).hist ≡ t.hist
  unfolding run_actions
  run_actions-hist [] t h = refl
  run_actions-hist (edit f ∷ acts) t h = run_actions-hist acts (record t { doc = f t.doc }) h
  run_actions-hist (commit_call ∷ acts) t h = simp (commit-applying t h) (run_actions-hist acts t h)
