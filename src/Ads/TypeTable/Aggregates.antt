-- ===== src/Ads/TypeTable/Aggregates.antt =====
-- The expansion of a whole symbol listing (`expandAggregates` of ads/src/AdsTypeTable.cpp). The
-- report is always asked for, and of a limit only its kind and its symbol are kept, not its words.
-- `budget` is `std::max(budget, 0)`, the only way the source reads it; a negative cap is the cap 0.
pub mod Laws
pub mod Rounds
use scope_analyser.Prelude.{
  ℕ, zero, suc, ◌+◌, ◌-◌, ◌/◌, min, Bool, true, false, not, ◌&&◌, ◌||◌, Option, none, some, List,
  [], ◌∷◌, ◌++◌, ◌==◌, length, is_empty, if◌then◌else◌,
}
use scope_analyser.Prelude.Int.{pos, ltb_ℤ}
use scope_analyser.Prelude.Text.{QString, contains}
use scope_analyser.Ads.Interfaces.{TextOps, AdsSymbol}
use scope_analyser.Ads.TypeNames.{parse_array_type_name}
use scope_analyser.Ads.TypeNames.ArraySymbol.{ArrayWarning, expand_array_symbol}
use scope_analyser.Ads.TypeTable.{AdsTypeTable}
use scope_analyser.Ads.TypeTable.Expand.{expand_with_type_table, noted}

-- `ListingLimits`
pub record ListingLimits : Type 0 where
  pub first_cap : ℕ
  pub budget : ℕ

-- `ExpansionReport` without its words.
pub record ExpansionReport : Type 0 where
  pub truncated : Bool
  pub too_deep : Bool
  pub recursive : Bool
  pub skipped : List QString

pub data ListingLimit : Type 0 where
  -- the symbol's own report tells of a limit
  limited : QString → ListingLimit
  -- the budget was spent before the symbol's turn
  list_full : QString → ListingLimit

-- What the loops of `expandAggregates` change.
pub record Listing : Type 0 where
  pub known : List QString
  pub out : List AdsSymbol
  pub pending : List AdsSymbol
  pub budget : ℕ
  pub limits : List ListingLimit
  pub skipped : List QString

abbrev pub no_report : ExpansionReport
no_report = record { truncated = false; too_deep = false; recursive = false; skipped = [] }

-- `keep`
unfoldable pub keep : List AdsSymbol → Listing → Listing
keep [] l = l
keep (e ∷ r) l =
    let known_on = keep r l in
    let kept_on =
      keep r (record l {
        known = l.known ++ e.name ∷ [];
        budget = l.budget - 1;
        out = l.out ++ e ∷ [];
      }) in
    if contains l.known e.name then known_on else kept_on

-- `record`, of the report on the symbol of that name.
unfoldable pub record_report : QString → ExpansionReport → Listing → Listing
record_report name rep l = record l {
  skipped = l.skipped ++ rep.skipped;
  limits =
      if rep.truncated || rep.too_deep || rep.recursive
      then l.limits ++ limited name ∷ []
      else l.limits;
}

unfoldable pub names : List AdsSymbol → List QString
names [] = []
names (s ∷ r) = s.name ∷ names r

abbrev pub no_listing : List AdsSymbol → ListingLimits → Listing
no_listing symbols limits = record {
  known = names symbols;
  out = [];
  pending = [];
  budget = limits.budget;
  limits = [];
  skipped = [];
}

module _ (qt : TextOps) (types : AdsTypeTable) where
  -- The declaration's own expansion, where the table yields nothing.
  unfoldable pub expand_declaration :
      AdsSymbol → ℕ → ExpansionReport → List AdsSymbol × ExpansionReport
  expand_declaration s cap rep =
      let (leaves, warning) = expand_array_symbol qt s (pos cap) in
      elim warning [
        | none ↦ (leaves, rep)
        | some _ ↦ elim (parse_array_type_name qt s.type_name) [
          | none ↦ (leaves, record rep { skipped = rep.skipped ++ noted s.name s.type_name ∷ [] })
          | some info ↦
              if ltb_ℤ (pos cap) info.total_elements
              then (leaves, record rep { truncated = true })
              else (leaves, record rep { skipped = rep.skipped ++ noted s.name s.type_name ∷ [] })
        ]
      ]

  -- The table's expansion with its report; nothing of an empty table.
  unfoldable pub expand_listed : AdsSymbol → ℕ → List AdsSymbol × ExpansionReport
  expand_listed s cap =
      let (leaves, ex) = expand_with_type_table qt types s cap in
      if is_empty types then ([], no_report) else (
        leaves,
        record {
          truncated = ex.truncated;
          too_deep = ex.too_deep;
          recursive = ex.recursive;
          skipped = ex.skipped;
        },
      )

  -- `expandOne`
  unfoldable pub expand_one : AdsSymbol → ℕ → List AdsSymbol × ExpansionReport
  expand_one s cap =
      let (leaves, rep) = expand_listed s cap in
      if cap == 0
      then ([], record no_report { truncated = true })
      else if is_empty leaves
      then expand_declaration s cap rep
      else (leaves, rep)

  -- The first loop's body, of an aggregate.
  unfoldable pub first_visit : ℕ → AdsSymbol → Listing → Listing
  first_visit first_cap s l =
      let (leaves, rep) = expand_one s (min first_cap l.budget) in
      if rep.truncated
      then record l { pending = l.pending ++ s ∷ [] }
      else keep leaves (record_report s.name rep l)

  unfoldable pub round_one : ℕ → List AdsSymbol → Listing → Listing
  round_one first_cap [] l = l
  round_one first_cap (s ∷ r) l =
      let passed = round_one first_cap r l in
      let visited = round_one first_cap r (first_visit first_cap s l) in
      if s.unsupported then visited else passed

  -- The second loop's body, of a held back symbol with `others` behind it.
  unfoldable pub second_visit : AdsSymbol → ℕ → Listing → Listing
  second_visit s others l =
      let cap = l.budget / suc others in
      let (leaves, rep) = expand_one s cap in
      if cap == 0
      then record l { limits = l.limits ++ list_full s.name ∷ [] }
      else keep leaves (record_report s.name rep l)

  unfoldable pub round_two : List AdsSymbol → Listing → Listing
  round_two [] l = l
  round_two (s ∷ r) l = round_two r (second_visit s (length r) l)

  -- `expandAggregates`, with the loops' whole state.
  unfoldable pub expand_aggregates : List AdsSymbol → ListingLimits → Listing
  expand_aggregates symbols limits =
      let first = round_one limits.first_cap symbols (no_listing symbols limits) in
      round_two first.pending first
