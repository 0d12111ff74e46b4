-- ===== src/Converter/ConverterProfile/Agreement/Columns.antt =====
-- The columns of the profile that is read from an export's metadata line
-- (converter/src/ConverterProfile.cpp), beside the columns of that export
-- (converter/src/CsvWriter.cpp).
use mathlib.Core.Path.{subst}
use scope_analyser.Prelude.{
  ℕ, zero, suc, ◌+◌, ◌≡◌, refl, ap, sym, some_inj, ◌∙◌, ◌⊎◌, inl, inr, some, List, [], ◌∷◌, map,
  All, get_elem?, arith,
}
use native.Mathlib.Nat.{zero-add}
use scope_analyser.Prelude.Int.{pos}
use scope_analyser.Prelude.Text.{QString, eq_text}
use scope_analyser.Prelude.Json.{JsonOps, JsonLaws}
use scope_analyser.Converter.TabularSource.{ColumnMapping, ConverterProfile}
use scope_analyser.Converter.TabularSource.Labels.{col_label}
use scope_analyser.Converter.CsvWriter.{Cache, CsvExportOptions}
use scope_analyser.Converter.CsvWriter.Columns.{ColDesc, metadata_json, columns}
use scope_analyser.Converter.CsvWriter.Columns.References.{
  IsX, Refers, is_x_column, refers_to, columns-Refers,
}
use scope_analyser.Converter.ConverterProfile.{role_from_string, role_name}
use scope_analyser.Converter.ConverterProfile.Metadata.{
  mapping_of, metadata_profile, profile_from_metadata,
}
use scope_analyser.Converter.ConverterProfile.Agreement.{described, described_from, read_back}

-- An X column takes none; a signal takes the X column that the export's column refers to.
abbrev Source : List ColDesc → ColDesc → QString → Type 0
Source all c label =
    (IsX c × (label ≡ []))
    ⊎ ((k : ℕ) × (x : ColDesc) × (c.ref_x ≡ pos k)
        × (get_elem? all k ≡ some x)
        × IsX x
        × (label ≡ col_label k))

module _ {Real : Type 0} where
  -- A column of a profile is the `i`-th of an export.
  pub record IsColumn (all : List ColDesc) (i : ℕ) (c : ColDesc) (m : ColumnMapping Real)
      : Type 0 where
    pub letter : m.column_id ≡ col_label i
    pub same_role : role_name m.role ≡ c.role
    pub same_unit : m.unit ≡ c.unit
    pub same_name : m.signal_name ≡ c.name
    pub source : Source all c m.x_source_column

  -- The columns of a profile are those of an export from the `i`-th on.
  abbrev pub AreColumns : List ColDesc → ℕ → List ColDesc → List (ColumnMapping Real) → Type 0
  AreColumns all i [] [] = Unit
  AreColumns all i (c ∷ r) (m ∷ ms) = IsColumn all i c m × AreColumns all (suc i) r ms
  AreColumns all i _ _ = ⊥

get_elem?-described_from :
    (cols : List ColDesc) (i k : ℕ) (x : ColDesc)
    → get_elem? cols k ≡ some x
    → get_elem? (described_from i cols) k ≡ some (described (i + k) x)
get_elem?-described_from [] i k x h = cc
get_elem?-described_from (c ∷ r) i zero x h =
    ap (λ d. some (described i d)) (some_inj h) ∙ ap (λ n. some (described n x)) (omega arith)
get_elem?-described_from (c ∷ r) i (suc k) x h =
    get_elem?-described_from r (suc i) k x h ∙ ap (λ n. some (described n x)) (omega arith)

module _ {Real : Type 0} (zero_real : Real) (all : List ColDesc) where
  abbrev mapped : ℕ → ColDesc → ColumnMapping Real
  mapped i c = mapping_of zero_real (described_from 0 all) (described i c)

  mapped-IsColumn : (i : ℕ) (c : ColDesc) → Refers all c → IsColumn all i c (mapped i c)
  unfolding mapping_of role_from_string role_name eq_text
  mapped-IsColumn i c (is_x_column (inl (unit, e))) =
      subst (λ d. IsColumn all i d (mapped i d)) (sym e)
        (record {
          letter = refl;
          same_role = refl;
          same_unit = refl;
          same_name = refl;
          source = inl (inl (unit, refl), refl);
        })
  mapped-IsColumn i c (is_x_column (inr e)) =
      subst (λ d. IsColumn all i d (mapped i d)) (sym e)
        (record {
          letter = refl;
          same_role = refl;
          same_unit = refl;
          same_name = refl;
          source = inl (inr refl, refl);
        })
  mapped-IsColumn i c (refers_to k x e r g h) = record {
    letter = refl;
    same_role = rw e refl;
    same_unit = refl;
    same_name = refl;
    source = inr (
      k,
      x,
      r,
      g,
      h,
      rw (e, r, get_elem?-described_from all 0 k x g) (ap col_label (zero-add k)),
    );
  }

  map-AreColumns :
      (i : ℕ) (cols : List ColDesc)
      → All (Refers all) cols
      → AreColumns all i cols
          (map (mapping_of zero_real (described_from 0 all)) (described_from i cols))
  map-AreColumns i [] h = tt
  map-AreColumns i (c ∷ r) h = (mapped-IsColumn i c h.0, map-AreColumns (suc i) r h.1)

module _ {Real Json : Type 0} (json : JsonOps Real Json) (zero_real : Real)
    (laws : JsonLaws json) where
  -- With a JSON library that reads values as they were built, and whatever an export's options and
  -- channels: its metadata is read back as a profile whose columns are, in order, those of the
  -- export, each with the letter of its place, its role, unit and name; an X column takes no other,
  -- and a signal takes the X column that it refers to, by that column's letter.
  pub profile_from_metadata-metadata_json :
      (opts : CsvExportOptions) (cs : List (Cache Real))
      → (p : ConverterProfile Real) × (profile_from_metadata json zero_real
            (metadata_json json opts.layout_json (columns opts cs))
          ≡ some p)
        × AreColumns (columns opts cs) 0 (columns opts cs) p.columns
  unfolding metadata_profile
  profile_from_metadata-metadata_json opts cs = (
    metadata_profile zero_real (described_from 0 (columns opts cs)),
    read_back json zero_real laws opts cs,
    map-AreColumns zero_real (columns opts cs) 0 (columns opts cs) (columns-Refers opts cs),
  )
