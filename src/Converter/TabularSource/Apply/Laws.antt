-- ===== src/Converter/TabularSource/Apply/Laws.antt =====
-- The signals that an import returns (converter/src/TabularSource.cpp).
use scope_analyser.Prelude.{All}
use scope_analyser.Prelude.Dict.{Dict}
use scope_analyser.Core.Signal.Laws.{IsWellFormed}
use scope_analyser.Converter.TabularSource.Vectors.{Vectors}
use scope_analyser.Converter.TabularSource.Reading.{Reading}
use scope_analyser.Converter.TabularSource.Apply.{Import, Outcome, failed, applied}

-- What holds of the value of an import that does not fail.
unfoldable pub Ensures : {A : Type 0} → (A → Type 0) → Outcome A → Type 0
Ensures P (failed _) = Unit
Ensures P (applied a) = P a

-- Each signal's bytes and count are those of its timestamps.
abbrev pub AreImported : Import → Type 0
AreImported st = All IsWellFormed st.out
