-- ===== src/Converter/TabularSource/Labels.antt =====
-- The spreadsheet letters that name the columns of a grid: `colLabel`, which `headerData` of the
-- preview repeats, and `labelToCol` (converter/src/TabularSource.cpp). What a letter is, and its
-- upper case, is Qt's. Column numbers stay far below the bound of an int.
use scope_analyser.Prelude.{
  ℕ, zero, suc, ◌+◌, ◌*◌, ◌/◌, ◌%◌, ◌<◌, ◌≡◌, inl, inr, ◌⊎◌, ◌∙◌, refl, Bool, true, [], ◌∷◌, arith,
  if◌then◌else◌,
}
use scope_analyser.Prelude.Int.{ℤ, pos, negsuc, ◌+ℤ◌, ◌-ℤ◌, ◌*ℤ◌}
use scope_analyser.Prelude.Text.{QString}

-- The loop; each round leaves a smaller number, so the fuel of `col_label` is enough.
unfoldable pub col_label_loop : ℕ → ℕ → QString → QString
col_label_loop zero n s = s
col_label_loop (suc fuel) n s = elim (n / 26) [
  | zero ↦ (65 + n % 26) ∷ s
  | suc m ↦ col_label_loop fuel m ((65 + n % 26) ∷ s)
]

-- `colLabel`
unfoldable pub col_label : ℕ → QString
col_label section = col_label_loop (suc section) section []

ℕ-cases : (n : ℕ) → (n ≡ 0) ⊎ ((m : ℕ) × (n ≡ suc m))
ℕ-cases zero = inl refl
ℕ-cases (suc m) = inr (m, refl)

col_label_loop-last :
    (fuel n : ℕ) (s : QString) → n / 26 ≡ 0 → col_label_loop (suc fuel) n s ≡ (65 + n % 26) ∷ s
unfolding col_label_loop
col_label_loop-last fuel n s e = rw (e, col_label_loop) refl

col_label_loop-more :
    (fuel n m : ℕ) (s : QString)
    → n / 26 ≡ suc m
    → col_label_loop (suc fuel) n s ≡ col_label_loop fuel m ((65 + n % 26) ∷ s)
unfolding col_label_loop
col_label_loop-more fuel n m s e = rw (e, col_label_loop) refl

module _ (is_letter : ℕ → Bool) (to_upper : ℕ → ℕ) where
  unfoldable pub letter_value : ℕ → ℤ
  letter_value c = pos (to_upper c) -ℤ pos 65 +ℤ pos 1

  unfoldable pub label_loop : ℤ → QString → ℤ
  label_loop n [] = n -ℤ pos 1
  label_loop n (c ∷ r) =
      let rest = label_loop (n *ℤ pos 26 +ℤ letter_value c) r in
      if is_letter c then rest else negsuc 0

  -- `labelToCol`
  unfoldable pub label_to_col : QString → ℤ
  label_to_col label = label_loop (pos 0) label

  module _ (letters : (k : ℕ) → k < 26 → is_letter (65 + k) ≡ true)
      (upper : (k : ℕ) → k < 26 → to_upper (65 + k) ≡ 65 + k) where
    letter_value_lem : (k : ℕ) → k < 26 → letter_value (65 + k) ≡ pos (suc k)
    unfolding letter_value ◌-ℤ◌ ◌+ℤ◌
    letter_value_lem k h = rw (upper k h) (ground arith)

    step : (a k : ℕ) → pos a *ℤ pos 26 +ℤ pos (suc k) ≡ pos (a * 26 + suc k)
    unfolding ◌*ℤ◌ ◌+ℤ◌
    step a k = ground arith

    loop-letter :
        (a k : ℕ) (r : QString)
        → k < 26
        → label_loop (pos a) ((65 + k) ∷ r) ≡ label_loop (pos (a * 26 + suc k)) r
    unfolding label_loop
    loop-letter a k r h = rw (letters k h, letter_value_lem k h, step a k) refl

    loop-col_label :
        (fuel n : ℕ) (s : QString)
        → n < fuel
        → label_loop (pos 0) (col_label_loop fuel n s) ≡ label_loop (pos (suc n)) s
    loop-col_label zero n s h = elim h [ ]
    loop-col_label (suc fuel) n s h = elim (ℕ-cases (n / 26)) [
      | inl e ↦
          let last : 0 * 26 + suc (n % 26) ≡ suc n = omega arith in
          rw (col_label_loop-last fuel n s e)
            (loop-letter 0 (n % 26) s (omega arith) ∙ rw last refl)
      | inr (m, e) ↦
          let digits : suc m * 26 + suc (n % 26) ≡ suc n = omega arith in
          rw (col_label_loop-more fuel n m s e) (
            loop-col_label fuel m ((65 + n % 26) ∷ s) (omega arith)
            ∙ loop-letter (suc m) (n % 26) s (omega arith)
            ∙ rw digits refl)
    ]

    -- Where the letters A to Z are letters and their own upper case: the label of a column number,
    -- of however many letters, is read back as that number.
    pub label_to_col-col_label : (n : ℕ) → label_to_col (col_label n) ≡ pos n
    unfolding label_to_col col_label label_loop ◌-ℤ◌
    label_to_col-col_label n = loop-col_label (suc n) n [] (omega arith) ∙ ground arith
