-- ===== src/Core/UndoStack/Zipper.antt =====
-- The abstract history behind UndoStack.h: what can be undone, most recent first, the present, and
-- what can be redone.
use scope_analyser.Prelude.{ℕ, ◌-◌, List, [], ◌∷◌, take}

pub record History {ℓ} (Snap : Type ℓ) : Type ℓ where
  pub past : List Snap
  pub now : Snap
  pub future : List Snap

module _ {ℓ} {Snap : Type ℓ} where
  -- The oldest entries beyond the depth are forgotten.
  abbrev pub record_snapshot : ℕ → Snap → History Snap → History Snap
  record_snapshot depth s h = record {
    past = take (depth - 1) (h.now ∷ h.past);
    now = s;
    future = [];
  }

  abbrev pub step_back : List Snap → Snap → List Snap → History Snap
  step_back [] n f = record { past = []; now = n; future = f }
  step_back (p ∷ ps) n f = record { past = ps; now = p; future = n ∷ f }

  abbrev pub step_forward : List Snap → Snap → List Snap → History Snap
  step_forward ps n [] = record { past = ps; now = n; future = [] }
  step_forward ps n (f ∷ fs) = record { past = n ∷ ps; now = f; future = fs }

  -- The entries in the order of recording: `rest` behind the reversed list.
  abbrev pub rev_onto : List Snap → List Snap → List Snap
  rev_onto [] rest = rest
  rev_onto (p ∷ ps) rest = rev_onto ps (p ∷ rest)
