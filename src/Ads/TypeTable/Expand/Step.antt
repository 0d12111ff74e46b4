-- ===== src/Ads/TypeTable/Expand/Step.antt =====
-- What one piece of an expansion may do to its state (ads/src/AdsTypeTable.cpp, `Expansion`).
use mathlib.Core.Path
use scope_analyser.Prelude.{
  ℕ, ◌≤◌, ◌<◌, ◌≡◌, refl, ap, ◌∙◌, Bool, true, false, List, [], ◌∷◌, ◌++◌, append-nil, append_assoc,
  arith, length, length-append, All, All-append, if◌then◌else◌,
}
use scope_analyser.Prelude.Text.{QString}
use scope_analyser.Core.Types.{size_of}
use scope_analyser.Ads.Interfaces.{AdsSymbol}
use scope_analyser.Ads.TypeTable.Expand.{Expansion, push_leaf, truncate, remove_last}

-- A symbol that the recorder can take as it stands: one element of a known scalar type.
abbrev pub IsRecordable : AdsSymbol → Type 0
IsRecordable s = (s.unsupported ≡ false) × (s.array_len ≡ 1) × (s.size ≡ size_of s.data_type)

-- The step appends recordable leaves, leaves the branch's types as they were, stays within the cap,
-- and reports a cut only of a full list.
pub record Step (cap : ℕ) (ex ex' : Expansion) : Type 0 where
  pub added : List AdsSymbol
  pub appended : ex'.out ≡ ex.out ++ added
  pub recordable : All IsRecordable added
  pub stack_kept : ex'.type_stack ≡ ex.type_stack
  pub within : length ex.out ≤ cap → length ex'.out ≤ cap
  pub honest :
      (ex.truncated ≡ true → cap ≤ length ex.out) → ex'.truncated ≡ true → cap ≤ length ex'.out

pub remove_last-append : (xs : List QString) (x : QString) → remove_last (xs ++ x ∷ []) ≡ xs
remove_last-append [] x = refl
remove_last-append (y ∷ []) x = refl
remove_last-append (y ∷ z ∷ r) x = ap (y ∷◌) (remove_last-append (z ∷ r) x)

module _ (cap : ℕ) where
  pub none_added : (ex : Expansion) → Step cap ex ex
  none_added ex = record {
    added = [];
    appended = Path.sym (append-nil _);
    recordable = tt;
    stack_kept = refl;
    within = λ h. h;
    honest = λ h. h;
  }

  pub Step-trans : (ex mid ex' : Expansion) → Step cap ex mid → Step cap mid ex' → Step cap ex ex'
  Step-trans ex mid ex' s t = record {
    added = s.added ++ t.added;
    appended = t.appended ∙ ap (λ l. l ++ t.added) s.appended ∙ append_assoc ex.out s.added t.added;
    recordable = All-append IsRecordable s.added t.added s.recordable t.recordable;
    stack_kept = t.stack_kept ∙ s.stack_kept;
    within = λ h. t.within (s.within h);
    honest = λ h. t.honest (s.honest h);
  }

  -- A note on the side changes neither the list nor the stack.
  pub noted-Step :
      (ex ex' : Expansion)
      → ex'.out ≡ ex.out
      → ex'.type_stack ≡ ex.type_stack
      → ex'.truncated ≡ ex.truncated
      → Step cap ex ex'
  noted-Step ex ex' o s t = record {
    added = [];
    appended = o ∙ Path.sym (append-nil _);
    recordable = tt;
    stack_kept = s;
    within = λ h. omega (arith, ap length o);
    honest = λ h e. omega (arith, ap length o, h (Path.sym t ∙ e));
  }

  pub truncate-Step : (ex : Expansion) → cap ≤ length ex.out → Step cap ex (truncate ex)
  truncate-Step ex h = record {
    added = [];
    appended = Path.sym (append-nil _);
    recordable = tt;
    stack_kept = refl;
    within = λ k. k;
    honest = λ _ _. h;
  }

  pub push_leaf-Step :
      (leaf : AdsSymbol) (ex : Expansion)
      → IsRecordable leaf
      → length ex.out < cap
      → Step cap ex (push_leaf leaf ex)
  push_leaf-Step leaf ex r room = record {
    added = leaf ∷ [];
    appended = refl;
    recordable = (r, tt);
    stack_kept = refl;
    within = λ _. omega (arith, room, length-append ex.out (leaf ∷ []));
    honest = λ h e. omega (arith, h e, length-append ex.out (leaf ∷ []));
  }

  pub branch-Step :
      (ex t e : Expansion) (b : Bool)
      → Step cap ex t
      → Step cap ex e
      → Step cap ex (if b then t else e)
  branch-Step ex t e true s _ = s
  branch-Step ex t e false _ s = s
