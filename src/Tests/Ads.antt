-- ===== src/Tests/Ads.antt =====
-- The theorems on ads/ at concrete inputs.
use scope_analyser.Prelude.{
  ℕ, ◌≡◌, ◌≤◌, ◌*◌, refl, Bool, true, false, Option, none, some, List, [], ◌∷◌, arith, length,
  get_elem?, All,
}
use scope_analyser.Prelude.Int.{pos, ◌*ℤ◌}
use scope_analyser.Prelude.Text.{QString, codes, eq_text}
use scope_analyser.Core.Types.{DataType, size_of}
use scope_analyser.Core.Types
use scope_analyser.Ads.Interfaces.{AdsSymbol}
use scope_analyser.Ads.TypeNames.{
  ArrayTypeInfo, count, parse_array_type_name, parse_dim, parse_dims, declared_from,
  data_type_from_plc_type_name, elementary_type,
}
use scope_analyser.Ads.TypeNames.Declaration.{IsDeclared, parse-IsDeclared, counts_of}
use scope_analyser.Prelude.Words.{mul64, wrap64}
use scope_analyser.Ads.TypeNames.Odometer.{InBounds, rank}
use scope_analyser.Ads.TypeNames.ArraySymbol.{
  expand_array_symbol, expand_declared, elements, element_name,
}
use scope_analyser.Ads.TypeNames.ArraySymbol.Elements.{expand_array_symbol-elements}
use scope_analyser.Ads.TypeTable.{AdsTypeMember, AdsTypeTable}
use scope_analyser.Ads.TypeTable.Expand.{expand_with_type_table}
use scope_analyser.Ads.TypeTable.Expand.Step.{IsRecordable}
use scope_analyser.Ads.TypeTable.Expand.Laws.{expand_with_type_table-IsRecordable}
use scope_analyser.Ads.TypeTable.Aggregates.{ListingLimits, names, expand_aggregates}
use scope_analyser.Ads.TypeTable.Aggregates.Rounds.{AllNew, expand_aggregates_lem}
use scope_analyser.Ads.TypeTable.Parse.{parsed, parse_ads_type_table}
use scope_analyser.Ads.TypeTable.Parse.Safety.{IsKeyed, parse_ads_type_table-IsKeyed}
use scope_analyser.Tests.Instances.{ascii}

abbrev symbol : QString → QString → ℕ → AdsSymbol
symbol name type_name size = record {
  name = name;
  type_name = type_name;
  data_type = Types.uint8;
  index_group = 16448;
  index_offset = 100;
  size = size;
  array_len = 1;
  comment = [];
  ads_data_type = 65;
  unsupported = true;
}

abbrev int_array : QString
int_array = codes "ARRAY [1..3] OF INT"

abbrev one_to_three : ArrayTypeInfo
one_to_three = record {
  dims = record { lower = pos 1; upper = pos 3 } ∷ [];
  element_type_name = codes "INT";
  total_elements = pos 3;
}

int_array-parsed : parse_array_type_name ascii int_array ≡ some one_to_three
unfolding parse_array_type_name declared_from parse_dims parse_dim mul64 wrap64 ◌*ℤ◌ count
int_array-parsed = refl

parse-IsDeclared_example : IsDeclared one_to_three.dims (pos 3)
parse-IsDeclared_example = parse-IsDeclared ascii int_array {info = one_to_three} int_array-parsed

abbrev axes : AdsSymbol
axes = symbol (codes "axes") int_array 6

-- A structure of an integer, an array, a bit and a text.
abbrev member : QString → QString → ℕ → ℕ → Bool → AdsTypeMember
member name type_name offset size bit = record {
  name = name;
  type_name = type_name;
  offset = offset;
  size = size;
  ads_data_type = 0;
  bit_value = bit;
}

abbrev table : AdsTypeTable
table =
    (
      codes "ST",
      record {
        name = codes "ST";
        element_type_name = [];
        size = 20;
        ads_data_type = 65;
        dims = [];
        members =
            member (codes "n") (codes "INT") 0 2 false
            ∷ member (codes "axes") int_array 2 6 false
            ∷ member (codes "on") (codes "BIT") 64 1 true
            ∷ member (codes "t") (codes "STRING") 10 4 false
            ∷ [];
      },
    )
    ∷ []

abbrev motor : AdsSymbol
motor = symbol (codes "motor") (codes "ST") 20

expand_with_type_table-IsRecordable_example :
    let result = expand_with_type_table ascii table motor 4 in
    (length result.0 ≤ 4)
    × All IsRecordable result.0
    × (result.1.truncated ≡ true → length result.1.out ≡ 4)
    × (result.1.type_stack ≡ [])
expand_with_type_table-IsRecordable_example =
    expand_with_type_table-IsRecordable ascii table motor 4

abbrev few : ListingLimits
few = record { first_cap = 3; budget = 6 }

expand_aggregates_lem_example :
    let found = (expand_aggregates ascii table (motor ∷ axes ∷ []) few).out in
    (length found ≤ 6) × All IsRecordable found × AllNew (names (motor ∷ axes ∷ [])) found
expand_aggregates_lem_example = expand_aggregates_lem ascii table (motor ∷ axes ∷ []) few

int_type : data_type_from_plc_type_name ascii (codes "INT") ≡ some Types.int16
unfolding data_type_from_plc_type_name elementary_type eq_text
int_type = refl

axes_quiet : (expand_array_symbol ascii axes (pos 16)).1 ≡ none
unfolding expand_array_symbol expand_declared parse_array_type_name declared_from parse_dims
    parse_dim mul64 wrap64 ◌*ℤ◌ count data_type_from_plc_type_name elementary_type eq_text size_of
axes_quiet = refl

axes_three : length (expand_array_symbol ascii axes (pos 16)).0 ≡ 3
unfolding expand_array_symbol expand_declared parse_array_type_name declared_from parse_dims
    parse_dim mul64 wrap64 ◌*ℤ◌ count data_type_from_plc_type_name elementary_type eq_text size_of
    elements
axes_three = refl

expand_array_symbol-elements_example :
    (idx : List ℕ) × InBounds (counts_of one_to_three.dims) idx
    × (rank (counts_of one_to_three.dims) idx ≡ 2)
    × (x : AdsSymbol) × (get_elem? (expand_array_symbol ascii axes (pos 16)).0 2 ≡ some x)
    × (x.name ≡ element_name ascii (codes "axes") one_to_three.dims idx)
    × (x.index_offset ≡ 104)
    × (x.size ≡ 2)
    × (length (expand_array_symbol ascii axes (pos 16)).0 * 2 ≡ 6)
unfolding size_of
expand_array_symbol-elements_example =
    expand_array_symbol-elements ascii axes (pos 16) one_to_three Types.int16 2 int_array-parsed
      int_type axes_quiet (omega (arith, axes_three)) (omega arith)

-- One entry of the raw table: the type "A" of four bytes; the table breaks off after it.
abbrev blob : List ℕ
blob =
    46 ∷ 0 ∷ 0 ∷ 0 ∷ 0 ∷ 0 ∷ 0 ∷ 0 ∷ 0 ∷ 0 ∷ 0 ∷ 0 ∷ 0 ∷ 0 ∷ 0 ∷ 0 ∷ 4 ∷ 0 ∷ 0 ∷ 0 ∷ 0 ∷ 0 ∷ 0 ∷ 0
    ∷ 3 ∷ 0 ∷ 0 ∷ 0 ∷ 0 ∷ 0 ∷ 0 ∷ 0 ∷ 1 ∷ 0 ∷ 0 ∷ 0 ∷ 0 ∷ 0 ∷ 0 ∷ 0 ∷ 0 ∷ 0 ∷ 65 ∷ 0 ∷ 0 ∷ 0 ∷ 9 ∷ 9
    ∷ []

parse_ads_type_table-IsKeyed_example :
    (r : AdsTypeTable × Option (ℕ × ℕ)) × (parse_ads_type_table ascii blob ≡ parsed r)
    × IsKeyed blob ascii r.0
parse_ads_type_table-IsKeyed_example = parse_ads_type_table-IsKeyed blob ascii
