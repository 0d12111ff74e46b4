-- ===== src/Converter/CsvWriter/Columns/References.antt =====
-- The references between the columns of an export (converter/src/CsvWriter.cpp).
use scope_analyser.Prelude.{
  ℕ, ◌-◌, ◌≡◌, ◌⊎◌, inl, inr, refl, ◌∙◌, Bool, true, false, some, List, [], ◌∷◌, ◌++◌, All,
  All-append, get_elem?, get_elem?-append_left, get_elem?-append_last, lt-length_of_get_elem?,
  length, length-append, if◌then◌else◌, arith,
}
use scope_analyser.Prelude.Int.{pos}
use scope_analyser.Prelude.Text.{QString, codes}
use scope_analyser.Converter.CsvWriter.{
  Cache, CsvExportOptions, TimeMode, shared, per_signal, is_freq, time_caches, freq_caches,
  time_unit,
}
use scope_analyser.Converter.CsvWriter.Columns.{
  ColDesc, x_column, signal_column, signal_columns, add_block, per_signal_columns, columns_of,
  columns,
}

abbrev pub IsX : ColDesc → Type 0
IsX c =
    ((unit : QString) × (c ≡ x_column (codes "x_time") unit))
    ⊎ (c ≡ x_column (codes "x_frequency") (codes "Hz"))

-- An X column, or a signal's column that refers to the place of an X column.
pub data Refers (cols : List ColDesc) : ColDesc → Type 0 where
  is_x_column : {c : ColDesc} → IsX c → Refers cols c
  refers_to :
      {c : ColDesc} (k : ℕ) (x : ColDesc)
      → c.role ≡ codes "signal"
      → c.ref_x ≡ pos k
      → get_elem? cols k ≡ some x
      → IsX x
      → Refers cols c

Refers-append : (cols more : List ColDesc) (c : ColDesc) → Refers cols c → Refers (cols ++ more) c
Refers-append cols more c (is_x_column h) = is_x_column h
Refers-append cols more c (refers_to k x s r g h) =
    refers_to k x s r (get_elem?-append_left cols more k (lt-length_of_get_elem? cols k g) ∙ g) h

All-map :
    (P Q : ColDesc → Type 0) (xs : List ColDesc) → ((c : ColDesc) → P c → Q c) → All P xs → All Q xs
All-map P Q [] f h = tt
All-map P Q (x ∷ xs) f h = (f x h.0, All-map P Q xs f h.1)

-- Columns that refer to columns among themselves.
Closed : List ColDesc → Type 0
Closed cols = All (Refers cols) cols

x_column_found :
    (cols more : List ColDesc) (x : ColDesc)
    → get_elem? ((cols ++ x ∷ []) ++ more) (length (cols ++ x ∷ []) - 1) ≡ some x
x_column_found cols more x =
    let at : length (cols ++ x ∷ []) - 1 ≡ length cols =
      omega (arith, length-append cols (x ∷ [])) in
    rw at (
      get_elem?-append_left (cols ++ x ∷ []) more (length cols)
        (omega (arith, length-append cols (x ∷ [])))
      ∙ get_elem?-append_last cols x)

append-Closed :
    (cols more : List ColDesc)
    → Closed cols
    → All (Refers (cols ++ more)) more
    → Closed (cols ++ more)
unfolding Closed
append-Closed cols more h k =
    All-append (Refers (cols ++ more)) cols more
      (All-map (Refers cols) (Refers (cols ++ more)) cols (λ c r. Refers-append cols more c r) h) k

Closed-nil : Closed []
unfolding Closed
Closed-nil = tt

module _ {Real : Type 0} where
  signal_columns-Refers :
      (all : List ColDesc) (k : ℕ) (x : ColDesc) (cs : List (Cache Real))
      → get_elem? all k ≡ some x
      → IsX x
      → All (Refers all) (signal_columns k cs)
  unfolding signal_column
  signal_columns-Refers all k x [] g h = tt
  signal_columns-Refers all k x (c ∷ r) g h =
      (refers_to k x refl refl g h, signal_columns-Refers all k x r g h)

  -- An X column with the columns of its signals.
  block-Closed :
      (cols : List ColDesc) (x : ColDesc) (cs : List (Cache Real))
      → IsX x
      → Closed cols
      → Closed ((cols ++ x ∷ []) ++ signal_columns (length (cols ++ x ∷ []) - 1) cs)
  block-Closed cols x cs h closed =
      append-Closed (cols ++ x ∷ []) _ (append-Closed cols (x ∷ []) closed (is_x_column h, tt))
        (signal_columns-Refers _ _ x cs (x_column_found cols _ x) h)

  add_block-Closed :
      (role unit : QString) (cs : List (Cache Real)) (cols : List ColDesc)
      → IsX (x_column role unit)
      → Closed cols
      → Closed (add_block role unit cs cols)
  unfolding add_block
  add_block-Closed role unit [] cols h closed = closed
  add_block-Closed role unit (c ∷ r) cols h closed =
      block-Closed cols (x_column role unit) (c ∷ r) h closed

  pair-Closed :
      (b : Bool) (unit : QString) (c : Cache Real) (cols : List ColDesc)
      → Closed cols
      → Closed (
          (cols
            ++ (if b
                then x_column (codes "x_frequency") (codes "Hz")
                else x_column (codes "x_time") unit)
              ∷ [])
          ++ signal_columns
              (length (
                  cols
                  ++ (if b
                      then x_column (codes "x_frequency") (codes "Hz")
                      else x_column (codes "x_time") unit)
                    ∷ [])
                - 1)
              (c ∷ []))
  pair-Closed true unit c cols closed = block-Closed cols _ (c ∷ []) (inr refl) closed
  pair-Closed false unit c cols closed = block-Closed cols _ (c ∷ []) (inl (unit, refl)) closed

  per_signal_columns-Closed :
      (unit : QString) (cs : List (Cache Real)) (cols : List ColDesc)
      → Closed cols
      → Closed (per_signal_columns unit cs cols)
  unfolding per_signal_columns
  per_signal_columns-Closed unit [] cols closed = closed
  per_signal_columns-Closed unit (c ∷ r) cols closed =
      per_signal_columns-Closed unit r _ (pair-Closed (is_freq c.signal) unit c cols closed)

  columns_of-Closed :
      (mode : TimeMode) (unit : QString) (cs : List (Cache Real)) → Closed (columns_of mode unit cs)
  columns_of-Closed shared unit cs =
      add_block-Closed _ _ (freq_caches cs) _ (inr refl)
        (add_block-Closed _ unit (time_caches cs) [] (inl (unit, refl)) Closed-nil)
  columns_of-Closed per_signal unit cs = per_signal_columns-Closed unit cs [] Closed-nil

  -- Every column that the metadata describes, in both modes, is an X column, or a signal's column
  -- whose reference is the place of an X column.
  pub columns-Refers :
      (opts : CsvExportOptions) (cs : List (Cache Real))
      → All (Refers (columns opts cs)) (columns opts cs)
  unfolding columns Closed
  columns-Refers opts cs = columns_of-Closed opts.time_mode (time_unit opts) cs
