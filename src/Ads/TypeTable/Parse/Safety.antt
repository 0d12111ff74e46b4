-- ===== src/Ads/TypeTable/Parse/Safety.antt =====
-- The parser of the type table reads only inside its blob and ends (`parseAdsTypeTable` of
-- ads/src/AdsTypeTable.cpp).
use scope_analyser.Prelude.{
  ℕ, zero, suc, ◌+◌, ◌≤◌, ◌<◌, ◌≡◌, ◌⊎◌, refl, Bool, true, false, ◌||◌, Option, none, some, List,
  [], ◌∷◌, ◌++◌, arith, ltb, length, get_elem?_lt, ◌==◌, Bool-cases, inl, inr,
}
use scope_analyser.Prelude.Text.{QString, eq_text_iff}
use scope_analyser.Prelude.Dict.{find, insert_or_assign, find-insert_or_assign}
use scope_analyser.Ads.Interfaces.{TextOps}
use scope_analyser.Ads.TypeNames.{ArrayDim}
use scope_analyser.Ads.TypeTable.{AdsTypeMember, AdsTypeEntry, AdsTypeTable}
use scope_analyser.Ads.TypeTable.Parse.{
  Parsed, fault, failed, parsed, ◌>>=◌, give_up_if, header_bytes, byte_at, u16, u32, latin1,
  RawEntry, member_of, parse_bounds, parse_members, parse_entry, entry_of, entry_depths,
  parse_entries, parse_ads_type_table,
}

-- No read outside the blob, and the property of the value if there is one.
unfoldable pub Safely : {A : Type 0} → (A → Type 0) → Parsed A → Type 0
Safely P fault = ⊥
Safely P failed = Unit
Safely P (parsed a) = P a

-- Nothing is asked of the value.
abbrev pub Anything : {A : Type 0} → A → Type 0
Anything a = Unit

bind-Safely :
    {A B : Type 0} (P : A → Type 0) (Q : B → Type 0) (m : Parsed A) (f : A → Parsed B)
    → Safely P m
    → ((a : A) → P a → Safely Q (f a))
    → Safely Q (m >>= f)
unfolding ◌>>=◌ Safely
bind-Safely P Q fault f h k = h
bind-Safely P Q failed f h k = tt
bind-Safely P Q (parsed a) f h k = k a h

parsed-Safely : {A : Type 0} (P : A → Type 0) (a : A) → P a → Safely P (parsed a)
unfolding Safely
parsed-Safely P a h = h

failed-Safely : {A : Type 0} (P : A → Type 0) → Safely P failed
unfolding Safely
failed-Safely P = tt

Parsed-cases :
    {A : Type 0} (P : A → Type 0) (r : Parsed A)
    → Safely P r
    → (r ≡ failed) ⊎ ((a : A) × P a × (r ≡ parsed a))
unfolding Safely
Parsed-cases P fault h = absurd h
Parsed-cases P failed h = inl refl
Parsed-cases P (parsed a) h = inr (a, h, refl)

-- A value of which nothing is asked.
read-Safely :
    {A B : Type 0} (Q : B → Type 0) (m : Parsed A) (f : A → Parsed B)
    → Safely Anything m
    → ((a : A) → Safely Q (f a))
    → Safely Q (m >>= f)
read-Safely Q m f h k = bind-Safely Anything Q m f h (λ a _. k a)

guard-Safely :
    {B : Type 0} (Q : B → Type 0) (b : Bool) (f : Unit → Parsed B)
    → (b ≡ false → Safely Q (f tt))
    → Safely Q (give_up_if b >>= f)
unfolding ◌>>=◌ Safely
guard-Safely Q true f k = tt
guard-Safely Q false f k = k refl

no_zero : (n : ℕ) → header_bytes ≤ n → (n == 0) ≡ false
no_zero n h = ground arith

or_false : (a b : Bool) → (a || b) ≡ false → (a ≡ false) × (b ≡ false)
or_false a b h = ground arith

le_of_ltb : (a b : ℕ) → ltb a b ≡ false → b ≤ a
le_of_ltb a b h = ground arith

module _ (base : List ℕ) where
  byte_at-Safely : (i : ℕ) → i < length base → Safely Anything (byte_at base i)
  unfolding byte_at Safely
  byte_at-Safely i h = let (x, e) = get_elem?_lt base i h in rw (byte_at, e) tt

  u16-Safely : (p : ℕ) → p + 2 ≤ length base → Safely Anything (u16 base p)
  unfolding u16
  u16-Safely p h =
      read-Safely _ _ _ (byte_at-Safely p (omega arith)) (λ b0.
        read-Safely _ _ _ (byte_at-Safely (p + 1) (omega arith)) (λ b1. parsed-Safely _ _ tt))

  u32-Safely : (p : ℕ) → p + 4 ≤ length base → Safely Anything (u32 base p)
  unfolding u32
  u32-Safely p h = read-Safely _ _ _ (byte_at-Safely p (omega arith)) (λ b0.
      read-Safely _ _ _ (byte_at-Safely (p + 1) (omega arith)) (λ b1.
        read-Safely _ _ _ (byte_at-Safely (p + 2) (omega arith)) (λ b2.
          read-Safely _ _ _ (byte_at-Safely (p + 3) (omega arith)) (λ b3. parsed-Safely _ _ tt))))

  latin1-Safely : (b n : ℕ) → b + n ≤ length base → Safely Anything (latin1 base b n)
  unfolding latin1 Safely
  latin1-Safely b n h = elim (Bool-cases (ltb (length base) (b + n))) [
    | inl e ↦ absurd (ground arith)
    | inr e ↦ rw (latin1, e) tt
  ]

  parse_bounds-Safely :
      (n b end : ℕ) (dims : List ArrayDim)
      → end ≤ length base
      → Safely Anything (parse_bounds base n b end dims)
  unfolding parse_bounds
  parse_bounds-Safely zero b end dims h = parsed-Safely _ _ tt
  parse_bounds-Safely (suc n) b end dims h = guard-Safely _ _ _ (λ room.
      let inside : b + 8 ≤ end = le_of_ltb _ _ room in
      read-Safely _ _ _ (u32-Safely b (omega (arith, h, inside))) (λ lower.
        read-Safely _ _ _ (u32-Safely (b + 4) (omega (arith, h, inside)))
          (λ count. parse_bounds-Safely n (b + 8) end _ h)))

  -- An entry that is read has its header and lies in the blob.
  abbrev pub Inside : ℕ → RawEntry → Type 0
  Inside p e = (header_bytes ≤ e.entry_length) × (p + e.entry_length ≤ length base)

  module _ (qt : TextOps) where
    parse_members-Safely :
        (parse : ℕ → Parsed RawEntry)
        → ((p : ℕ) → Safely (Inside p) (parse p))
        → (n b end : ℕ) (members : List AdsTypeMember)
        → Safely Anything (parse_members qt base parse n b end members)
    unfolding parse_members
    parse_members-Safely parse w zero b end members = parsed-Safely _ _ tt
    parse_members-Safely parse w (suc n) b end members =
        guard-Safely _ (ltb end (b + header_bytes)) _ (λ _.
          bind-Safely (Inside b) _ _ _ (w b) (λ sub _.
            guard-Safely _ (sub.entry_length == 0) _ (λ _.
              parse_members-Safely parse w n (b + sub.entry_length) end
                (members ++ member_of qt base sub ∷ []))))

    parse_entry-Safely : (left p : ℕ) → Safely (Inside p) (parse_entry qt base left p)
    unfolding parse_entry
    parse_entry-Safely zero p = failed-Safely (Inside p)
    parse_entry-Safely (suc left) p = guard-Safely _ _ _ (λ room.
        let low : p + header_bytes ≤ length base = le_of_ltb _ _ room in
        read-Safely _ _ _ (u32-Safely p (omega (arith, low))) (λ len.
          read-Safely _ _ _ (u32-Safely (p + 16) (omega (arith, low))) (λ size.
            read-Safely _ _ _ (u32-Safely (p + 20) (omega (arith, low))) (λ offset.
              read-Safely _ _ _ (u32-Safely (p + 24) (omega (arith, low))) (λ adst.
                read-Safely _ _ _ (u16-Safely (p + 32) (omega (arith, low))) (λ name_len.
                  read-Safely _ _ _ (u16-Safely (p + 34) (omega (arith, low))) (λ type_len.
                    read-Safely _ _ _ (u16-Safely (p + 36) (omega (arith, low))) (λ comm_len.
                      read-Safely _ _ _ (u16-Safely (p + 38) (omega (arith, low))) (λ dim.
                        read-Safely _ _ _ (u16-Safely (p + 40) (omega (arith, low))) (λ subs.
                          guard-Safely _ _ _ (λ sized.
                            let (long, inside) = or_false _ _ sized in
                            let head : header_bytes ≤ len = le_of_ltb _ _ long in
                            let fits : p + len ≤ length base = le_of_ltb _ _ inside in
                            guard-Safely _ _ _ (λ text.
                              let texts : p
                                    + header_bytes
                                    + (name_len + 1 + type_len + 1 + comm_len + 1)
                                  ≤ p + len =
                                le_of_ltb _ _ text in
                              read-Safely _ _ _
                                (latin1-Safely (p + header_bytes) name_len
                                  (omega (arith, fits, texts)))
                                (λ name.
                                  read-Safely _ _ _
                                    (latin1-Safely (p + header_bytes + (name_len + 1)) type_len
                                      (omega (arith, fits, texts)))
                                    (λ type_name.
                                      read-Safely _ _ _
                                        (parse_bounds-Safely dim _ (p + len) [] fits)
                                        (λ d.
                                          read-Safely _ _ _
                                            (parse_members-Safely (parse_entry qt base left)
                                              (parse_entry-Safely left) subs d.1 (p + len) [])
                                            (λ members.
                                              parsed-Safely (Inside p) _
                                                (head, fits)))))))))))))))))

    -- Every type is filed under its own name in upper case.
    abbrev pub IsKeyed : AdsTypeTable → Type 0
    IsKeyed table =
        (k : QString) (t : AdsTypeEntry) → find k table ≡ some t → qt.to_upper t.name ≡ k

    filed :
        (e : RawEntry) (table : AdsTypeTable)
        → IsKeyed table
        → IsKeyed (insert_or_assign (qt.to_upper e.name) (entry_of qt base e) table)
    filed e table i k t found = ground (
      arith,
      find-insert_or_assign (qt.to_upper e.name) k (entry_of qt base e) table,
      eq_text_iff (qt.to_upper e.name) k,
      i k t,
    )

    -- The loop returns, with every type filed under its own name.
    Returns : Parsed (AdsTypeTable × Option (ℕ × ℕ)) → Type 0
    Returns x = (r : AdsTypeTable × Option (ℕ × ℕ)) × (x ≡ parsed r) × IsKeyed r.0

    parse_entries-Returns :
        (fuel p : ℕ) (out : AdsTypeTable)
        → IsKeyed out
        → p ≤ length base
        → length base < p + fuel
        → Returns (parse_entries qt base fuel p out)
    unfolding parse_entries Returns
    parse_entries-Returns zero p out i low h = absurd (omega arith)
    parse_entries-Returns (suc fuel) p out i low h =
        elim (Bool-cases (ltb (length base) (p + header_bytes))) [
          | inl done ↦ ((out, none), rw (parse_entries, done) refl, i)
          | inr room ↦
              elim (Parsed-cases (Inside p) (parse_entry qt base (entry_depths qt base) p)
                (parse_entry-Safely (entry_depths qt base) p)) [
                  | inl bad ↦ ((out, some (p, length out)), rw (parse_entries, room, bad) refl, i)
                  | inr (e, inside, good) ↦
                      let (r, same, k) =
                        parse_entries-Returns fuel (p + e.entry_length) _ (filed e out i) inside.1
                          (omega (arith, h, inside)) in
                      (r, rw (parse_entries, room, good, no_zero e.entry_length inside.0) same, k)
                ]
        ]

    -- Whatever the blob: the parser of the type table returns, having read no byte outside the blob,
    -- and the table files every type under its own name in upper case.
    pub parse_ads_type_table-IsKeyed :
        (r : AdsTypeTable × Option (ℕ × ℕ)) × (parse_ads_type_table qt base ≡ parsed r)
        × IsKeyed r.0
    unfolding parse_ads_type_table Returns find
    parse_ads_type_table-IsKeyed =
        parse_entries-Returns (suc (length base)) 0 [] (λ k t e. absurd cc) (omega arith)
          (omega arith)
