-- ===== src/Converter/CsvWriter/Grid.antt =====
-- The shared rows of an export (`buildGrid` in `writeCsv`, converter/src/CsvWriter.cpp): the distinct
-- timestamps of the channels, in order, as a `std::set` holds them.
use scope_analyser.Prelude.{
  ◌≡◌, ◌⊎◌, ◌↔◌, inl, inr, Bool-cases, List, [], ◌∷◌, arith, if◌then◌else◌,
}
use scope_analyser.Prelude.Int.{ℤ, ltb_ℤ, eqb_ℤ, ◌<ℤ◌, eq_of_parts}
use scope_analyser.Converter.CsvWriter.{Cache}

-- `std::set::insert`
unfoldable pub insert_time : ℤ → List ℤ → List ℤ
insert_time t [] = t ∷ []
insert_time t (u ∷ r) =
    let rest = insert_time t r in
    if ltb_ℤ t u then t ∷ u ∷ r else if eqb_ℤ t u then u ∷ r else u ∷ rest

unfoldable pub insert_times : List ℤ → List ℤ → List ℤ
insert_times [] set = set
insert_times (t ∷ r) set = insert_times r (insert_time t set)

module _ {Real : Type 0} where
  unfoldable pub insert_channels : List (Cache Real) → List ℤ → List ℤ
  insert_channels [] set = set
  insert_channels (c ∷ r) set = insert_channels r (insert_times c.timestamps set)

  -- `buildGrid`
  unfoldable pub build_grid : List (Cache Real) → List ℤ
  build_grid cs = insert_channels cs []

-- Each time is above the one before it, the first above `t`.
abbrev pub AscendsFrom : ℤ → List ℤ → Type 0
AscendsFrom t [] = Unit
AscendsFrom t (u ∷ r) = (t <ℤ u) × AscendsFrom u r

abbrev pub Ascends : List ℤ → Type 0
Ascends [] = Unit
Ascends (t ∷ r) = AscendsFrom t r

abbrev pub Occurs : ℤ → List ℤ → Type 0
Occurs t [] = ⊥
Occurs t (u ∷ r) = (t ≡ u) ⊎ Occurs t r

insert_time-AscendsFrom :
    (b t : ℤ) (set : List ℤ) → b <ℤ t → AscendsFrom b set → AscendsFrom b (insert_time t set)
unfolding insert_time
insert_time-AscendsFrom b t [] h s = (h, tt)
insert_time-AscendsFrom b t (u ∷ r) h s = elim (Bool-cases (ltb_ℤ t u)) [
  | inl e ↦ rw (e, insert_time) (h, (ground arith, s.1))
  | inr e ↦ elim (Bool-cases (eqb_ℤ t u)) [
    | inl e' ↦ rw (e, e', insert_time) s
    | inr e' ↦
        let above : u <ℤ t = ground arith in
        rw (e, e', insert_time) (s.0, insert_time-AscendsFrom u t r above s.1)
  ]
]

insert_time-Ascends : (t : ℤ) (set : List ℤ) → Ascends set → Ascends (insert_time t set)
unfolding insert_time
insert_time-Ascends t [] s = tt
insert_time-Ascends t (u ∷ r) s = elim (Bool-cases (ltb_ℤ t u)) [
  | inl e ↦ rw (e, insert_time) (ground arith, s)
  | inr e ↦ elim (Bool-cases (eqb_ℤ t u)) [
    | inl e' ↦ rw (e, e', insert_time) s
    | inr e' ↦
        let above : u <ℤ t = ground arith in
        rw (e, e', insert_time) (insert_time-AscendsFrom u t r above s)
  ]
]

insert_time-Occurs :
    (t u : ℤ) (set : List ℤ) → Occurs t (insert_time u set) ↔ ((t ≡ u) ⊎ Occurs t set)
unfolding insert_time
insert_time-Occurs t u [] = ground arith
insert_time-Occurs t u (w ∷ r) = ground (arith, insert_time-Occurs t u r, eq_of_parts u w)

insert_times-Ascends : (ts set : List ℤ) → Ascends set → Ascends (insert_times ts set)
unfolding insert_times
insert_times-Ascends [] set s = s
insert_times-Ascends (t ∷ r) set s =
    insert_times-Ascends r (insert_time t set) (insert_time-Ascends t set s)

insert_times-Occurs :
    (t : ℤ) (ts set : List ℤ) → Occurs t (insert_times ts set) ↔ (Occurs t ts ⊎ Occurs t set)
unfolding insert_times
insert_times-Occurs t [] set = ground arith
insert_times-Occurs t (u ∷ r) set =
    ground (arith, insert_times-Occurs t r (insert_time u set), insert_time-Occurs t u set)

module _ {Real : Type 0} where
  -- A timestamp of one of the channels.
  abbrev pub IsTimeOf : ℤ → List (Cache Real) → Type 0
  IsTimeOf t [] = ⊥
  IsTimeOf t (c ∷ r) = Occurs t c.timestamps ⊎ IsTimeOf t r

  insert_channels-Ascends :
      (cs : List (Cache Real)) (set : List ℤ) → Ascends set → Ascends (insert_channels cs set)
  unfolding insert_channels
  insert_channels-Ascends [] set s = s
  insert_channels-Ascends (c ∷ r) set s =
      insert_channels-Ascends r (insert_times c.timestamps set)
        (insert_times-Ascends c.timestamps set s)

  insert_channels-Occurs :
      (t : ℤ) (cs : List (Cache Real)) (set : List ℤ)
      → Occurs t (insert_channels cs set) ↔ (IsTimeOf t cs ⊎ Occurs t set)
  unfolding insert_channels
  insert_channels-Occurs t [] set = ground arith
  insert_channels-Occurs t (c ∷ r) set = ground (
    arith,
    insert_channels-Occurs t r (insert_times c.timestamps set),
    insert_times-Occurs t c.timestamps set,
  )

  -- The times of a shared table's rows: each is above the one before it, and they are exactly the
  -- timestamps of the channels.
  pub build_grid_lem :
      (cs : List (Cache Real))
      → Ascends (build_grid cs) × ((t : ℤ) → Occurs t (build_grid cs) ↔ IsTimeOf t cs)
  unfolding build_grid
  build_grid_lem cs =
      (insert_channels-Ascends cs [] tt, λ t. ground (arith, insert_channels-Occurs t cs []))
