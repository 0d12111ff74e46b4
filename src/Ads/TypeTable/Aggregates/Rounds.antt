-- ===== src/Ads/TypeTable/Aggregates/Rounds.antt =====
-- The two rounds of `expandAggregates` of ads/src/AdsTypeTable.cpp.
use mathlib.Core.Path
use scope_analyser.Prelude.{
  ℕ, suc, ◌+◌, ◌-◌, ◌/◌, ◌≤◌, ◌≡◌, refl, ap, ◌∙◌, min, Bool, true, false, List, [], ◌∷◌, ◌++◌,
  append-nil, append_assoc, arith, ◌==◌, length, length-append, All, All-append, if◌then◌else◌,
  Bool-cases, inl, inr,
}
use scope_analyser.Prelude.Text.{QString, contains}
use scope_analyser.Ads.Interfaces.{TextOps, AdsSymbol}
use scope_analyser.Ads.TypeTable.{AdsTypeTable}
use scope_analyser.Ads.TypeTable.Expand.Step.{IsRecordable}
use scope_analyser.Ads.TypeTable.Aggregates.{
  ListingLimits, ExpansionReport, Listing, keep, record_report, expand_one, first_visit, round_one,
  second_visit, round_two, names, no_listing, expand_aggregates,
}
use scope_analyser.Ads.TypeTable.Aggregates.Laws.{Leaves, one-Leaves}

-- No leaf bears a name that is known or that an earlier leaf bears.
abbrev pub AllNew : List QString → List AdsSymbol → Type 0
AllNew known [] = Unit
AllNew known (e ∷ r) = (contains known e.name ≡ false) × AllNew (known ++ e.name ∷ []) r

names-append :
    (xs : List AdsSymbol) (e : AdsSymbol) → names (xs ++ e ∷ []) ≡ names xs ++ e.name ∷ []
unfolding names
names-append [] e = refl
names-append (x ∷ xs) e = ap (x.name ∷◌) (names-append xs e)

AllNew-append :
    (known : List QString) (xs : List AdsSymbol) (e : AdsSymbol)
    → AllNew known xs
    → contains (known ++ names xs) e.name ≡ false
    → AllNew known (xs ++ e ∷ [])
unfolding names
AllNew-append known [] e h k =
    (Path.subst (λ l. contains l e.name ≡ false) (append-nil known) k, tt)
AllNew-append known (x ∷ xs) e h k = (
  h.0,
  AllNew-append (known ++ x.name ∷ []) xs e h.1 (
      Path.subst (λ l. contains l e.name ≡ false)
        (Path.sym (append_assoc known (x.name ∷ []) (names xs))) k),
)

-- What the listing of the symbols, within the budget, has found so far.
record IsListing (symbols : List AdsSymbol) (budget : ℕ) (l : Listing) : Type 0 where
  spent : length l.out + l.budget ≡ budget
  recordable : All IsRecordable l.out
  known_is : l.known ≡ names symbols ++ names l.out
  fresh : AllNew (names symbols) l.out

module _ (symbols : List AdsSymbol) (budget : ℕ) where
  kept_one :
      (l : Listing) (e : AdsSymbol)
      → IsListing symbols budget l
      → IsRecordable e
      → 1 ≤ l.budget
      → contains l.known e.name ≡ false
      → IsListing symbols budget (record l {
        known = l.known ++ e.name ∷ [];
        budget = l.budget - 1;
        out = l.out ++ e ∷ [];
      })
  kept_one l e i r room new = record {
    spent = omega (arith, i.spent, length-append l.out (e ∷ []));
    recordable = All-append IsRecordable l.out (e ∷ []) i.recordable (r, tt);
    known_is =
        ap (λ k. k ++ e.name ∷ []) i.known_is
        ∙ append_assoc (names symbols) (names l.out) (e.name ∷ [])
        ∙ ap (λ k. names symbols ++ k) (Path.sym (names-append l.out e));
    fresh =
        AllNew-append (names symbols) l.out e i.fresh
          (Path.subst (λ k. contains k e.name ≡ false) i.known_is new);
  }

  keep-IsListing :
      (leaves : List AdsSymbol) (l : Listing)
      → Leaves l.budget leaves
      → IsListing symbols budget l
      → IsListing symbols budget (keep leaves l)
  unfolding keep
  keep-IsListing [] l h i = i
  keep-IsListing (e ∷ r) l h i = elim (Bool-cases (contains l.known e.name)) [
    | inl c ↦ rw c (keep-IsListing r l (omega (arith, h.0), h.1.1) i)
    | inr c ↦ rw c (
        keep-IsListing r _ (omega (arith, h.0), h.1.1)
          (kept_one l e i h.1.0 (omega (arith, h.0)) c))
  ]

  -- The part of the state that the invariant reads.
  same_listing :
      (l l' : Listing)
      → l'.known ≡ l.known
      → l'.out ≡ l.out
      → l'.budget ≡ l.budget
      → IsListing symbols budget l
      → IsListing symbols budget l'
  same_listing l l' k o b i = record {
    spent = omega (arith, i.spent, ap length o, b);
    recordable = Path.subst (All IsRecordable) (Path.sym o) i.recordable;
    known_is = k ∙ i.known_is ∙ ap (λ x. names symbols ++ names x) (Path.sym o);
    fresh = Path.subst (AllNew (names symbols)) (Path.sym o) i.fresh;
  }

  either_listing :
      (x y : Listing) (b : Bool)
      → IsListing symbols budget x
      → IsListing symbols budget y
      → IsListing symbols budget (if b then x else y)
  either_listing x y true i j = i
  either_listing x y false i j = j

  reported :
      (name : QString) (rep : ExpansionReport) (l : Listing)
      → IsListing symbols budget l
      → IsListing symbols budget (record_report name rep l)
  unfolding record_report
  reported name rep l i = same_listing l _ refl refl refl i

  kept_reported :
      (leaves : List AdsSymbol) (cap : ℕ) (name : QString) (rep : ExpansionReport) (l : Listing)
      → Leaves cap leaves
      → cap ≤ l.budget
      → IsListing symbols budget l
      → IsListing symbols budget (keep leaves (record_report name rep l))
  unfolding record_report
  kept_reported leaves cap name rep l h room i =
      keep-IsListing leaves (record_report name rep l) (omega (arith, h.0), h.1)
        (reported name rep l i)

  module _ (qt : TextOps) (types : AdsTypeTable) where
    first_visit-IsListing :
        (first_cap : ℕ) (s : AdsSymbol) (l : Listing)
        → IsListing symbols budget l
        → IsListing symbols budget (first_visit qt types first_cap s l)
    unfolding first_visit
    first_visit-IsListing first_cap s l i =
        let cap = min first_cap l.budget in
        let one = expand_one qt types s cap in
        elim (Bool-cases one.1.truncated) [
          | inl c ↦ rw (first_visit, c) (same_listing l _ refl refl refl i)
          | inr c ↦
              rw (first_visit, c)
                (kept_reported one.0 cap s.name one.1 l (one-Leaves qt types s cap) (omega arith) i)
        ]

    round_one-IsListing :
        (first_cap : ℕ) (todo : List AdsSymbol) (l : Listing)
        → IsListing symbols budget l
        → IsListing symbols budget (round_one qt types first_cap todo l)
    unfolding round_one
    round_one-IsListing first_cap [] l i = i
    round_one-IsListing first_cap (s ∷ r) l i =
        either_listing _ _ s.unsupported
          (round_one-IsListing first_cap r _ (first_visit-IsListing first_cap s l i))
          (round_one-IsListing first_cap r l i)

    second_visit-IsListing :
        (s : AdsSymbol) (others : ℕ) (l : Listing)
        → IsListing symbols budget l
        → IsListing symbols budget (second_visit qt types s others l)
    unfolding second_visit
    second_visit-IsListing s others l i =
        let cap = l.budget / suc others in
        let one = expand_one qt types s cap in
        elim (Bool-cases (cap == 0)) [
          | inl c ↦ rw (second_visit, c) (same_listing l _ refl refl refl i)
          | inr c ↦
              rw (second_visit, c)
                (kept_reported one.0 cap s.name one.1 l (one-Leaves qt types s cap) (omega arith) i)
        ]

    round_two-IsListing :
        (todo : List AdsSymbol) (l : Listing)
        → IsListing symbols budget l
        → IsListing symbols budget (round_two qt types todo l)
    unfolding round_two
    round_two-IsListing [] l i = i
    round_two-IsListing (s ∷ r) l i =
        round_two-IsListing r _ (second_visit-IsListing s (length r) l i)

start :
    (symbols : List AdsSymbol) (limits : ListingLimits)
    → IsListing symbols limits.budget (no_listing symbols limits)
unfolding names
start symbols limits = record {
  spent = omega arith;
  recordable = tt;
  known_is = Path.sym (append-nil (names symbols));
  fresh = tt;
}

-- Whatever the symbols and the type table: the expansion of a listing adds no more leaves than the
-- budget, each of them recordable, and none of them under a name that one of the symbols or an
-- earlier leaf bears.
pub expand_aggregates_lem :
    (qt : TextOps) (types : AdsTypeTable) (symbols : List AdsSymbol) (limits : ListingLimits)
    → let found = (expand_aggregates qt types symbols limits).out in
      (length found ≤ limits.budget) × All IsRecordable found × AllNew (names symbols) found
unfolding expand_aggregates
expand_aggregates_lem qt types symbols limits =
    let first =
      round_one-IsListing symbols limits.budget qt types limits.first_cap symbols _
        (start symbols limits) in
    let i = round_two-IsListing symbols limits.budget qt types _ _ first in
    (omega (arith, i.spent), i.recordable, i.fresh)
