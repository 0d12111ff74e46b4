-- ===== src/Core/UndoStack.antt =====
-- `UndoStack<Snap>` (core/include/scope/core/UndoStack.h). The callbacks are the tool's: `capture`
-- reads its document, and `restore` is what the `apply` callback does, edits of the document and
-- calls of `commit` among them, in order. `notified` counts the calls of `notify()`.
pub mod Laws
pub mod Zipper
pub mod Refinement
pub mod Undo
use scope_analyser.Prelude.{
  ℕ, zero, suc, ◌+◌, ◌-◌, Bool, true, false, ◌&&◌, Option, none, some, List, [], ◌∷◌, ◌++◌, ltb,
  length, get_elem?, take, is_empty, if◌then◌else◌,
}
use scope_analyser.Prelude.Int.{ℤ, pos, negsuc, ltb_ℤ, leb_ℤ}

pub record UndoStack {ℓ} (Snap : Type ℓ) : Type ℓ where
  pub max_depth : ℕ
  pub snaps : List Snap
  pub cursor : ℤ
  pub applying : Bool
  pub notified : ℕ

-- What the restoring code of a tool may do.
pub data Action {ℓ} (Doc : Type ℓ) : Type ℓ where
  edit : (Doc → Doc) → Action Doc
  commit_call : Action Doc

-- A tool: its live document and its history.
pub record Tool {ℓ} (Doc Snap : Type ℓ) : Type ℓ where
  pub doc : Doc
  pub hist : UndoStack Snap

-- The constructor: a depth below two is raised to two.
abbrev depth_of : ℤ → ℕ
depth_of (pos n) = if ltb n 2 then 2 else n
depth_of (negsuc _) = 2

unfoldable pub new {ℓ} : {Snap : Type ℓ} → ℤ → UndoStack Snap
new m = record {
  max_depth = depth_of m;
  snaps = [];
  cursor = negsuc 0;
  applying = false;
  notified = 0;
}

-- `while (snaps_.size() > maxDepth_) snaps_.erase(snaps_.begin())`
unfoldable pub cap_depth {ℓ} : {Snap : Type ℓ} → ℕ → List Snap → List Snap
cap_depth m [] = []
cap_depth m (x ∷ xs) = let rest = cap_depth m xs in if ltb m (length (x ∷ xs)) then rest else x ∷ xs

-- `begin() + (cursor_ + 1)`, as an index.
abbrev pub after_cursor : ℤ → ℕ
after_cursor (pos n) = suc n
after_cursor (negsuc n) = 0

-- `canUndo` and `canRedo`.
unfoldable pub can_undo {ℓ} : {Snap : Type ℓ} → UndoStack Snap → Bool
can_undo h = ltb_ℤ (pos 0) h.cursor

unfoldable pub can_redo {ℓ} : {Snap : Type ℓ} → UndoStack Snap → Bool
can_redo h = leb_ℤ (pos 0) h.cursor && ltb (after_cursor h.cursor) (length h.snaps)

-- `snaps_[cursor_]`
abbrev pub at_cursor {ℓ} : {Snap : Type ℓ} → List Snap → ℤ → Option Snap
at_cursor l (pos n) = get_elem? l n
at_cursor l (negsuc _) = none

abbrev pub pred_cursor : ℤ → ℤ
pred_cursor (pos zero) = negsuc 0
pred_cursor (pos (suc n)) = pos n
pred_cursor (negsuc n) = negsuc (suc n)

abbrev pub suc_cursor : ℤ → ℤ
suc_cursor (pos n) = pos (suc n)
suc_cursor (negsuc zero) = pos 0
suc_cursor (negsuc (suc n)) = negsuc n

module _ {ℓ} {Doc Snap : Type ℓ} (capture : Doc → Snap) (restore : Snap → List (Action Doc)) where
  abbrev pub notify : Tool Doc Snap → Tool Doc Snap
  notify t = record t { hist = record t.hist { notified = t.hist.notified + 1 } }

  unfoldable pub reset : Tool Doc Snap → Tool Doc Snap
  reset t =
      notify (record t { hist = record t.hist { snaps = capture t.doc ∷ []; cursor = pos 0 } })

  -- The history after a fresh snapshot, once the guards have passed.
  unfoldable pub push_snapshot : Tool Doc Snap → Tool Doc Snap
  push_snapshot t =
      let kept = take (after_cursor t.hist.cursor) t.hist.snaps in
      let capped = cap_depth t.hist.max_depth (kept ++ capture t.doc ∷ []) in
      notify
        (record t { hist = record t.hist { snaps = capped; cursor = pos (length capped - 1) } })

  unfoldable pub commit : Tool Doc Snap → Tool Doc Snap
  unfolding reset push_snapshot
  commit t =
      if t.hist.applying then t else if is_empty t.hist.snaps then reset t else push_snapshot t

  -- The restoring code, run through the tool: its calls of `commit` reach the history.
  unfoldable pub run_actions : List (Action Doc) → Tool Doc Snap → Tool Doc Snap
  unfolding commit
  run_actions [] t = t
  run_actions (edit f ∷ r) t = run_actions r (record t { doc = f t.doc })
  run_actions (commit_call ∷ r) t = run_actions r (commit t)

  unfoldable pub apply_snapshot : Snap → Tool Doc Snap → Tool Doc Snap
  unfolding run_actions
  apply_snapshot s t =
      let during =
        run_actions (restore s) (record t { hist = record t.hist { applying = true } }) in
      notify (record during { hist = record during.hist { applying = false } })

  -- A cursor out of range is undefined in the source; here it does nothing.
  unfoldable pub apply_current : Tool Doc Snap → Tool Doc Snap
  unfolding apply_snapshot
  apply_current t = elim (at_cursor t.hist.snaps t.hist.cursor) [
    | none ↦ t
    | some s ↦ apply_snapshot s t
  ]

  unfoldable pub undo : Tool Doc Snap → Tool Doc Snap
  unfolding can_undo apply_current
  undo t =
      if can_undo t.hist
      then apply_current (record t { hist = record t.hist { cursor = pred_cursor t.hist.cursor } })
      else t

  unfoldable pub redo : Tool Doc Snap → Tool Doc Snap
  unfolding can_redo apply_current
  redo t =
      if can_redo t.hist
      then apply_current (record t { hist = record t.hist { cursor = suc_cursor t.hist.cursor } })
      else t
