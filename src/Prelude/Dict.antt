-- ===== src/Prelude/Dict.antt =====
-- Maps keyed by texts (`std::unordered_map<QString, V>`, `QHash<QString, V>`): an association list
-- with one entry for each key, in some order.
use scope_analyser.Prelude.{
  ◌≡◌, refl, Bool, true, false, Option, none, some, List, [], ◌∷◌, arith, if◌then◌else◌,
}
use scope_analyser.Prelude.Text.{QString, eq_text, eq_text_iff, contains}

abbrev pub Dict : Type 0 → Type 0
Dict V = List (QString × V)

abbrev pub is_some {ℓ} : {A : Type ℓ} → Option A → Bool
is_some none = false
is_some (some _) = true

module _ {V : Type 0} where
  unfoldable pub find : QString → Dict V → Option V
  find k [] = none
  find k ((j, v) ∷ m) = if eq_text j k then some v else find k m

  unfoldable pub has : QString → Dict V → Bool
  has k m = is_some (find k m)

  unfoldable pub insert_or_assign : QString → V → Dict V → Dict V
  insert_or_assign k v [] = (k, v) ∷ []
  insert_or_assign k v ((j, w) ∷ m) =
      if eq_text j k then (k, v) ∷ m else (j, w) ∷ insert_or_assign k v m

  unfoldable pub erase : QString → Dict V → Dict V
  erase k [] = []
  erase k ((j, v) ∷ m) = let rest = erase k m in if eq_text j k then rest else (j, v) ∷ rest

  unfoldable pub keys : Dict V → List QString
  keys [] = []
  keys ((k, _) ∷ m) = k ∷ keys m

  pub find-insert_or_assign :
      (k j : QString) (v : V) (m : Dict V)
      → find j (insert_or_assign k v m) ≡ (if eq_text k j then some v else find j m)
  unfolding find insert_or_assign
  find-insert_or_assign k j v [] = refl
  find-insert_or_assign k j v ((i, w) ∷ m) =
      ground
        (arith, eq_text_iff k j, eq_text_iff i k, eq_text_iff i j, find-insert_or_assign k j v m)

  pub find-erase :
      (k j : QString) (m : Dict V) → find j (erase k m) ≡ (if eq_text k j then none else find j m)
  unfolding find erase
  find-erase k j [] = ground arith
  find-erase k j ((i, w) ∷ m) =
      ground (arith, eq_text_iff k j, eq_text_iff i k, eq_text_iff i j, find-erase k j m)

  -- One entry for each key.
  abbrev pub Unique : Dict V → Type 0
  Unique [] = Unit
  Unique ((k, _) ∷ m) = (find k m ≡ none) × Unique m

  pub insert_or_assign-Unique :
      (k : QString) (v : V) (m : Dict V) → Unique m → Unique (insert_or_assign k v m)
  unfolding find insert_or_assign
  insert_or_assign-Unique k v [] u = (refl, tt)
  insert_or_assign-Unique k v ((j, w) ∷ m) u = ground (
    arith,
    eq_text_iff j k,
    eq_text_iff k j,
    insert_or_assign-Unique k v m u.1,
    find-insert_or_assign k j v m,
  )

  pub erase-Unique : (k : QString) (m : Dict V) → Unique m → Unique (erase k m)
  unfolding find erase
  erase-Unique k [] u = tt
  erase-Unique k ((j, w) ∷ m) u = ground (arith, erase-Unique k m u.1, find-erase k j m)

  pub has-contains : (k : QString) (m : Dict V) → has k m ≡ contains (keys m) k
  unfolding has find keys contains
  has-contains k [] = refl
  has-contains k ((j, v) ∷ m) = ground (arith, has-contains k m)
