-- ===== src/Prelude/Text.antt =====
-- Texts: a QString is the list of its UTF-16 code units. What Qt does to a text beyond comparing,
-- joining and reading units is a parameter of the definitions that use it.
use Prim.Native.Char.{code}
use Prim.Native.String.{String}
use scope_analyser.Prelude.{
  ℕ, ◌≡◌, ◌↔◌, Bool, true, false, ◌&&◌, ◌||◌, List, [], ◌∷◌, ◌++◌, ◌==◌, arith,
}

abbrev pub QString : Type 0
QString = List ℕ

-- The units of an ASCII literal.
abbrev pub codes : String → QString
codes String.[] = []
codes (String.◌∷◌ c s) = code c ∷ codes s

-- `operator==` of QString.
unfoldable pub eq_text : QString → QString → Bool
eq_text [] [] = true
eq_text (x ∷ xs) (y ∷ ys) = x == y && eq_text xs ys
eq_text _ _ = false

pub eq_text_iff : (a b : QString) → (eq_text a b ≡ true) ↔ (a ≡ b)
unfolding eq_text
eq_text_iff (x ∷ a) (y ∷ b) = ground (arith, eq_text_iff a b)
eq_text_iff _ _ = ground arith

-- `contains` of a list of texts.
unfoldable pub contains : List QString → QString → Bool
contains [] t = false
contains (x ∷ xs) t = eq_text x t || contains xs t

-- `QStringList::join`.
unfoldable pub join : QString → List QString → QString
join sep [] = []
join sep (x ∷ []) = x
join sep (x ∷ y ∷ r) = x ++ (sep ++ join sep (y ∷ r))
