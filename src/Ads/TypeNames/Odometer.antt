-- ===== src/Ads/TypeNames/Odometer.antt =====
-- The odometer of ads/src/AdsTypeNames.cpp and ads/src/AdsTypeTable.cpp that walks the elements of
-- an array, last dimension fastest, and the row-major order that it follows.
use mathlib.Core.Path.{ap₂}
use scope_analyser.Prelude.{
  ℕ, zero, suc, ◌+◌, ◌*◌, ◌<◌, ◌≡◌, refl, ap, Bool, true, false, List, [], ◌∷◌, arith, ltb, ltb→lt,
  if◌then◌else◌, Bool-cases, inl, inr, ◌⊎◌,
}

-- One turn: the index vector and whether the first dimension overflowed too. An index that reaches
-- its count goes back to 0 and carries to the dimension before it.
turn : List ℕ → List ℕ → List ℕ × Bool
turn (c ∷ cs) (i ∷ is) =
    let (is', carry) = turn cs is in
    if carry
    then (if ltb (suc i) c then (suc i ∷ is', false) else (0 ∷ is', true))
    else (i ∷ is', false)
turn _ is = (is, true)

-- The indices after the loop's step.
unfoldable pub advance : List ℕ → List ℕ → List ℕ
unfolding turn
advance counts idx = (turn counts idx).0

abbrev pub product : List ℕ → ℕ
product [] = 1
product (c ∷ cs) = c * product cs

-- The place of an index vector in row-major order.
abbrev pub rank : List ℕ → List ℕ → ℕ
rank (c ∷ cs) (i ∷ is) = i * product cs + rank cs is
rank _ _ = 0

-- An index below the count in every dimension.
abbrev pub InBounds : List ℕ → List ℕ → Type 0
InBounds [] [] = Unit
InBounds (c ∷ cs) (i ∷ is) = (i < c) × InBounds cs is
InBounds _ _ = ⊥

below : (p i c r : ℕ) → i < c → r < p → i * p + r < c * p
below p i c r h k = grind arith

factor_pos : (c p : ℕ) → 0 < c * p → 0 < c
factor_pos c p h = grind arith

digits : (p i j r s : ℕ) → r < p → s < p → i * p + r ≡ j * p + s → (i ≡ j) × (r ≡ s)
digits p i j r s h k e = elim (Bool-cases (ltb i j)) [
  | inl under ↦ absurd (omega (arith, below p i j r (ltb→lt i j under) h))
  | inr le ↦ elim (Bool-cases (ltb j i)) [
    | inl over ↦ absurd (omega (arith, below p j i s (ltb→lt j i over) k))
    | inr ge ↦ let same : i ≡ j = ground arith in (same, omega (arith, ap (λ (t : ℕ). t * p) same))
  ]
]

rank-lt-product : (counts idx : List ℕ) → InBounds counts idx → rank counts idx < product counts
rank-lt-product [] [] b = omega arith
rank-lt-product [] (i ∷ is) b = absurd b
rank-lt-product (c ∷ cs) [] b = absurd b
rank-lt-product (c ∷ cs) (i ∷ is) b =
    below (product cs) i c (rank cs is) b.0 (rank-lt-product cs is b.1)

turn-InBounds : (counts idx : List ℕ) → InBounds counts idx → InBounds counts (turn counts idx).0
unfolding turn
turn-InBounds [] [] b = tt
turn-InBounds [] (i ∷ is) b = absurd b
turn-InBounds (c ∷ cs) [] b = absurd b
turn-InBounds (c ∷ cs) (i ∷ is) b = ground (arith, turn-InBounds cs is b.1)

-- A turn with no carry steps the rank by one; one that carries was at the last place, and goes to
-- the first.
turn-rank :
    (counts idx : List ℕ)
    → InBounds counts idx
    → (((turn counts idx).1 ≡ false) × (rank counts (turn counts idx).0 ≡ suc (rank counts idx)))
      ⊎ (((turn counts idx).1 ≡ true)
          × (suc (rank counts idx) ≡ product counts)
          × (rank counts (turn counts idx).0 ≡ 0))
unfolding turn
turn-rank [] [] b = inr (refl, refl, refl)
turn-rank [] (i ∷ is) b = absurd b
turn-rank (c ∷ cs) [] b = absurd b
turn-rank (c ∷ cs) (i ∷ is) b = elim (turn-rank cs is b.1) [
  | inl (stays, next) ↦ inl (rw stays refl, rw stays (omega (arith, next)))
  | inr (carries, last, first) ↦ elim (Bool-cases (ltb (suc i) c)) [
    | inl room ↦ inl (rw (carries, room) refl, rw (carries, room) (omega (arith, last, first)))
    | inr full ↦
        let top : suc i ≡ c = ground arith in
        inr (
          rw (carries, full) refl,
          omega (arith, last, ap (λ (t : ℕ). t * product cs) top),
          rw (carries, full) (omega (arith, first)),
        )
  ]
]

-- The index vector after `n` steps from `idx`.
unfoldable pub after : ℕ → List ℕ → List ℕ → List ℕ
after zero counts idx = idx
after (suc n) counts idx = after n counts (advance counts idx)

advance-rank :
    (counts idx : List ℕ)
    → InBounds counts idx
    → suc (rank counts idx) < product counts
    → rank counts (advance counts idx) ≡ suc (rank counts idx)
unfolding advance
advance-rank counts idx b h = elim (turn-rank counts idx b) [
  | inl (_, next) ↦ next
  | inr (_, last, _) ↦ absurd (omega (arith, last))
]

pub advance-InBounds :
    (counts idx : List ℕ) → InBounds counts idx → InBounds counts (advance counts idx)
unfolding advance
advance-InBounds counts idx b = turn-InBounds counts idx b

-- Before the end of the array, `n` steps of the odometer move the row-major place by `n`, and every
-- index stays below its count.
pub after-rank :
    (n : ℕ) (counts idx : List ℕ)
    → InBounds counts idx
    → rank counts idx + n < product counts
    → (rank counts (after n counts idx) ≡ rank counts idx + n)
      × InBounds counts (after n counts idx)
unfolding after
after-rank zero counts idx b h = (omega arith, b)
after-rank (suc n) counts idx b h =
    let step = advance-rank counts idx b (omega arith) in
    let (r, k) =
      after-rank n counts (advance counts idx) (advance-InBounds counts idx b)
        (omega (arith, step)) in
    (omega (arith, r, step), k)

-- An index vector in bounds is determined by its place.
pub rank-injective :
    (counts a b : List ℕ)
    → InBounds counts a
    → InBounds counts b
    → rank counts a ≡ rank counts b
    → a ≡ b
rank-injective [] [] [] h k e = refl
rank-injective [] [] (j ∷ js) h k e = absurd k
rank-injective [] (i ∷ is) b h k e = absurd h
rank-injective (c ∷ cs) [] b h k e = absurd h
rank-injective (c ∷ cs) (i ∷ is) [] h k e = absurd k
rank-injective (c ∷ cs) (i ∷ is) (j ∷ js) h k e =
    let (same, rest) =
      digits (product cs) i j (rank cs is) (rank cs js) (rank-lt-product cs is h.1)
        (rank-lt-product cs js k.1) e in
    ap₂ (λ (x : ℕ) (l : List ℕ). x ∷ l) same (rank-injective cs is js h.1 k.1 rest)

-- The loop starts at the first place.
unfoldable pub zeros : List ℕ → List ℕ
zeros [] = []
zeros (c ∷ cs) = 0 ∷ zeros cs

pub zeros-InBounds : (counts : List ℕ) → 0 < product counts → InBounds counts (zeros counts)
unfolding zeros
zeros-InBounds [] h = tt
zeros-InBounds (c ∷ cs) h = (factor_pos c (product cs) h, zeros-InBounds cs (grind arith))

pub rank-zeros : (counts : List ℕ) → rank counts (zeros counts) ≡ 0
unfolding zeros
rank-zeros [] = refl
rank-zeros (c ∷ cs) = omega (arith, rank-zeros cs)
