-- ===== src/Ads/TypeTable/Parse.antt =====
-- The parser of the raw data-type table (`parseEntry` and `parseAdsTypeTable` of
-- ads/src/AdsTypeTable.cpp). The blob is a list of bytes; a read outside it, undefined in the source,
-- is the value `fault`. Offsets are below 2^64, since they stay near the blob.
pub mod Safety
use scope_analyser.Prelude.{
  ℕ, zero, suc, ◌+◌, ◌*◌, ◌-◌, Bool, true, false, ◌||◌, Option, none, some, List, [], ◌∷◌, ◌++◌,
  ltb, length, get_elem?, take, drop, ◌==◌, if◌then◌else◌,
}
use scope_analyser.Prelude.Int.{ℤ, pos, negsuc, ◌+ℤ◌, ◌-ℤ◌}
use scope_analyser.Prelude.Text.{QString, codes, eq_text}
use scope_analyser.Prelude.Dict.{insert_or_assign}
use scope_analyser.Ads.Interfaces.{TextOps}
use scope_analyser.Ads.TypeNames.{ArrayDim}
use scope_analyser.Ads.TypeTable.{AdsTypeMember, AdsTypeEntry, AdsTypeTable}

-- The ways a step of the parser ends: outside the blob, giving up, or with a value.
pub data Parsed (A : Type 0) : Type 0 where
  fault failed : Parsed A
  parsed : A → Parsed A

infixl 5 ◌>>=◌
unfoldable pub ◌>>=◌ : {A B : Type 0} → Parsed A → (A → Parsed B) → Parsed B
fault >>= f = fault
failed >>= f = failed
parsed a >>= f = f a

-- `if (bad) return e;`
abbrev pub give_up_if : Bool → Parsed Unit
give_up_if true = failed
give_up_if false = parsed tt

-- `kHeaderBytes`
abbrev pub header_bytes : ℕ
header_bytes = 42

unfoldable pub byte_at : List ℕ → ℕ → Parsed ℕ
byte_at base i = elim (get_elem? base i) [ none ↦ fault | some x ↦ parsed x ]

unfoldable pub u16 : List ℕ → ℕ → Parsed ℕ
unfolding byte_at ◌>>=◌
u16 base p = do b0 ← byte_at base p; b1 ← byte_at base (p + 1); parsed (b0 + b1 * 256)

unfoldable pub u32 : List ℕ → ℕ → Parsed ℕ
unfolding byte_at ◌>>=◌
u32 base p = do
  b0 ← byte_at base p
  b1 ← byte_at base (p + 1)
  b2 ← byte_at base (p + 2)
  b3 ← byte_at base (p + 3)
  parsed (b0 + b1 * 256 + b2 * 65536 + b3 * 16777216)

-- The signed reading of 32 bits.
abbrev pub signed32 : ℕ → ℤ
signed32 v = if ltb v 2147483648 then pos v else negsuc (4294967295 - v)

-- `QString::fromLatin1(base + b, n)`
unfoldable pub latin1 : List ℕ → ℕ → ℕ → Parsed QString
latin1 base b n = if ltb (length base) (b + n) then fault else parsed (take n (drop b base))

-- `RawEntry`; one that is not `ok` is `failed`.
pub record RawEntry : Type 0 where
  pub name : QString
  pub type_name : QString
  pub size : ℕ
  pub offset : ℕ
  pub ads_data_type : ℕ
  pub entry_length : ℕ
  pub dims : List ArrayDim
  pub members : List AdsTypeMember

-- The loop over the array bounds, up to `end`: the dimensions and where they stop.
unfoldable pub parse_bounds : List ℕ → ℕ → ℕ → ℕ → List ArrayDim → Parsed (List ArrayDim × ℕ)
unfolding ◌>>=◌ ◌+ℤ◌ ◌-ℤ◌
parse_bounds base zero b end dims = parsed (dims, b)
parse_bounds base (suc n) b end dims = do
  _ ← give_up_if (ltb end (b + 8))
  lower ← u32 base b
  count ← u32 base (b + 4)
  parse_bounds base n (b + 8) end
      (dims ++ record { lower = signed32 lower; upper = signed32 lower +ℤ pos count -ℤ pos 1 } ∷ [])

module _ (qt : TextOps) (base : List ℕ) where
  abbrev pub member_of : RawEntry → AdsTypeMember
  member_of sub = record {
    name = sub.name;
    type_name = sub.type_name;
    offset = sub.offset;
    size = sub.size;
    ads_data_type = sub.ads_data_type;
    bit_value = eq_text (qt.to_upper sub.type_name) (codes "BIT");
  }

  -- The loop over the sub-items; `parse` is the parser of the next depth.
  unfoldable pub parse_members :
      (ℕ → Parsed RawEntry) → ℕ → ℕ → ℕ → List AdsTypeMember → Parsed (List AdsTypeMember)
  unfolding ◌>>=◌
  parse_members parse zero b end members = parsed members
  parse_members parse (suc n) b end members = do
    _ ← give_up_if (ltb end (b + header_bytes))
    sub ← parse b
    _ ← give_up_if (sub.entry_length == 0)
    parse_members parse n (b + sub.entry_length) end (members ++ member_of sub ∷ [])

  -- `parseEntry`, with `left` levels of nesting allowed.
  unfoldable pub parse_entry : ℕ → ℕ → Parsed RawEntry
  unfolding ◌>>=◌
  parse_entry zero p = failed
  parse_entry (suc left) p = do
    _ ← give_up_if (ltb (length base) (p + header_bytes))
    entry_length ← u32 base p
    size ← u32 base (p + 16)
    offset ← u32 base (p + 20)
    ads_data_type ← u32 base (p + 24)
    name_len ← u16 base (p + 32)
    type_len ← u16 base (p + 34)
    comm_len ← u16 base (p + 36)
    array_dim ← u16 base (p + 38)
    sub_items ← u16 base (p + 40)
    _ ← give_up_if (ltb entry_length header_bytes || ltb (length base) (p + entry_length))
    let b = p + header_bytes
    let end = p + entry_length
    _ ← give_up_if (ltb end (b + (name_len + 1 + type_len + 1 + comm_len + 1)))
    name ← latin1 base b name_len
    type_name ← latin1 base (b + (name_len + 1)) type_len
    (dims, after_dims) ←
        parse_bounds base array_dim (b + (name_len + 1) + (type_len + 1 + comm_len + 1)) end []
    members ← parse_members (parse_entry left) sub_items after_dims end []
    parsed (record {
      name = name;
      type_name = type_name;
      size = size;
      offset = offset;
      ads_data_type = ads_data_type;
      entry_length = entry_length;
      dims = dims;
      members = members;
    })

  abbrev pub entry_of : RawEntry → AdsTypeEntry
  entry_of e = record {
    name = e.name;
    element_type_name = e.type_name;
    size = e.size;
    ads_data_type = e.ads_data_type;
    dims = e.dims;
    members = e.members;
  }

  -- The depths 0 to `kMaxDepth`.
  abbrev pub entry_depths : ℕ
  entry_depths = 17

  -- The loop over the entries, with fuel; the warning is where the table stopped making sense, and
  -- how many types were read.
  unfoldable pub parse_entries : ℕ → ℕ → AdsTypeTable → Parsed (AdsTypeTable × Option (ℕ × ℕ))
  parse_entries zero p out = fault
  parse_entries (suc fuel) p out =
      if ltb (length base) (p + header_bytes)
      then parsed (out, none)
      else elim (parse_entry entry_depths p) [
        | fault ↦ fault
        | failed ↦ parsed (out, some (p, length out))
        | parsed e ↦
            if e.entry_length == 0
            then parsed (out, some (p, length out))
            else parse_entries fuel (p + e.entry_length)
                (insert_or_assign (qt.to_upper e.name) (entry_of e) out)
      ]

  -- `parseAdsTypeTable`
  unfoldable pub parse_ads_type_table : Parsed (AdsTypeTable × Option (ℕ × ℕ))
  parse_ads_type_table = parse_entries (suc (length base)) 0 []
