-- ===== src/Converter/CsvWriter/Repeats.antt =====
-- What a shared export would lose (`scanRepeatedTimestamps`, converter/src/CsvWriter.cpp): samples
-- that repeat the timestamp before them. `none` is the null pointer.
use scope_analyser.Prelude.{
  ℕ, ◌+◌, ◌≡◌, ◌⊎◌, inl, inr, refl, true, false, Bool-cases, Option, none, some, List, [], ◌∷◌,
  ◌==◌, ltb, length, get_elem?, if◌then◌else◌, arith,
}
use scope_analyser.Prelude.Int.{ℤ, eqb_ℤ, ◌<ℤ◌, ◌≤ℤ◌, eq_of_parts}
use scope_analyser.Prelude.Text.{QString}
use scope_analyser.Core.Signal.{Signal}
use scope_analyser.Core.SignalStore.{SignalStore, get}
use scope_analyser.Converter.CsvWriter.Grid.{insert_time, insert_times}

pub record RepeatedTimestampScan : Type 0 where
  pub channels : ℕ
  pub dropped_samples : ℕ
  pub worst_channel : QString

-- The samples of a channel whose timestamp is the one before.
unfoldable pub dropped : List ℤ → ℕ
dropped [] = 0
dropped (t ∷ []) = 0
dropped (t ∷ u ∷ r) = (if eqb_ℤ u t then 1 else 0) + dropped (u ∷ r)

-- One round of the loop; `worst` is the greatest loss so far.
unfoldable pub scan_channel : Signal → ℕ → RepeatedTimestampScan → ℕ × RepeatedTimestampScan
scan_channel s worst scan =
    let n = dropped s.timestamps in
    if n == 0 then (worst, scan) else (
      if ltb worst n then n else worst,
      record {
        channels = scan.channels + 1;
        dropped_samples = scan.dropped_samples + n;
        worst_channel = if ltb worst n then s.meta.name else scan.worst_channel;
      },
    )

unfoldable pub scan_loop :
    List (Option Signal) → ℕ × RepeatedTimestampScan → ℕ × RepeatedTimestampScan
scan_loop [] st = st
scan_loop (none ∷ r) st = scan_loop r st
scan_loop (some s ∷ r) (worst, scan) = scan_loop r (scan_channel s worst scan)

-- `scanRepeatedTimestamps`
unfoldable pub scan_repeated_timestamps : List (Option Signal) → RepeatedTimestampScan
scan_repeated_timestamps channels =
    (scan_loop channels (0, record { channels = 0; dropped_samples = 0; worst_channel = [] })).1

abbrev deref : SignalStore → Option ℕ → Option Signal
deref st none = none
deref st (some p) = get_elem? st.heap p

abbrev signals_named : SignalStore → List QString → List (Option Signal)
signals_named st [] = []
signals_named st (n ∷ r) = deref st (get n st) ∷ signals_named st r

-- `scanRepeatedTimestamps` of a store, with the names that it returns in their order.
unfoldable pub scan_store : List QString → SignalStore → RepeatedTimestampScan
scan_store channel_names st = scan_repeated_timestamps (signals_named st channel_names)

-- The last time of a set, above all others.
Top : ℤ → List ℤ → Type 0
Top v [] = ⊥
Top v (u ∷ r) = ((u ≡ v) × (r ≡ [])) ⊎ ((u <ℤ v) × Top v r)

step : (t v : ℤ) → ℕ
step t v = if eqb_ℤ t v then 0 else 1

abbrev Grows : ℤ → ℤ → List ℤ → Type 0
Grows t v set = Top t (insert_time t set) × (length (insert_time t set) ≡ length set + step t v)

insert_time-below : (t u : ℤ) (r : List ℤ) → u <ℤ t → insert_time t (u ∷ r) ≡ u ∷ insert_time t r
unfolding insert_time
insert_time-below t u r h = ground arith

insert_time-same : (t u : ℤ) (r : List ℤ) → eqb_ℤ t u ≡ true → insert_time t (u ∷ r) ≡ u ∷ r
unfolding insert_time
insert_time-same t u r h = ground arith

eq_of_eqb : (t u : ℤ) → eqb_ℤ t u ≡ true → u ≡ t
eq_of_eqb t u e = eq_of_parts u t (ground arith)

below_of_ne : (t u : ℤ) → u ≤ℤ t → eqb_ℤ t u ≡ false → u <ℤ t
below_of_ne t u h e = ground arith

insert_time-Top : (t v : ℤ) (set : List ℤ) → v ≤ℤ t → Top v set → Grows t v set
unfolding Top step insert_time
insert_time-Top t v [] h top = absurd top
insert_time-Top t v (u ∷ w ∷ r) h (inl (same, nil)) = cc
insert_time-Top t v (u ∷ []) h (inl (same, nil)) = elim (Bool-cases (eqb_ℤ t v)) [
  | inl e ↦
      let e' : eqb_ℤ t u ≡ true = rw same e in
      rw (e, insert_time-same t u [] e') (inl (eq_of_eqb t u e', refl), omega arith)
  | inr e ↦
      let h' : u <ℤ t = rw same (below_of_ne t v h e) in
      rw (e, insert_time-below t u [] h') (inr (h', inl (refl, refl)), omega arith)
]
insert_time-Top t v (u ∷ r) h (inr (below, top)) =
    let h' : u <ℤ t = omega (arith, h, below) in
    let (top', grown) = insert_time-Top t v r h top in
    rw (insert_time-below t u r h') (inr (h', top'), omega (arith, grown))

-- No time is below the one before it, the first not below `t`.
abbrev pub RisesFrom : ℤ → List ℤ → Type 0
RisesFrom t [] = Unit
RisesFrom t (u ∷ r) = (t ≤ℤ u) × RisesFrom u r

abbrev pub Rises : List ℤ → Type 0
Rises [] = Unit
Rises (t ∷ r) = RisesFrom t r

-- The times after `v`, put into a set whose last time is `v`.
step_or_repeat : (t v : ℤ) → (if eqb_ℤ t v then 1 else 0) + step t v ≡ 1
unfolding step
step_or_repeat t v = ground arith

insert_times-dropped :
    (v : ℤ) (ts set : List ℤ)
    → RisesFrom v ts
    → Top v set
    → length (insert_times ts set) + dropped (v ∷ ts) ≡ length set + length ts
unfolding insert_times dropped step
insert_times-dropped v [] set s top = omega arith
insert_times-dropped v (t ∷ r) set s top =
    let (top', grown) = insert_time-Top t v set s.0 top in
    let rest = insert_times-dropped t r (insert_time t set) s.1 top' in
    omega (arith, rest, grown, step_or_repeat t v)

dropped_nil : dropped [] ≡ 0
unfolding dropped
dropped_nil = refl

-- The rows that a channel has for itself, and the samples that are lost, are its samples.
dropped_lem : (ts : List ℤ) → Rises ts → length (insert_times ts []) + dropped ts ≡ length ts
unfolding insert_times insert_time Top
dropped_lem [] s = ground (arith, dropped_nil)
dropped_lem (t ∷ r) s = omega (arith, insert_times-dropped t r (t ∷ []) s (inl (refl, refl)))

-- Sums over the channels that are there.
abbrev pub total : (List ℤ → ℕ) → List (Option Signal) → ℕ
total f [] = 0
total f (none ∷ r) = total f r
total f (some s ∷ r) = f s.timestamps + total f r

abbrev pub AllRise : List (Option Signal) → Type 0
AllRise [] = Unit
AllRise (none ∷ r) = AllRise r
AllRise (some s ∷ r) = Rises s.timestamps × AllRise r

scan_channel-dropped :
    (s : Signal) (worst : ℕ) (scan : RepeatedTimestampScan)
    → (scan_channel s worst scan).1.dropped_samples ≡ scan.dropped_samples + dropped s.timestamps
unfolding scan_channel
scan_channel-dropped s worst scan = ground arith

scan_loop-dropped :
    (cs : List (Option Signal)) (worst : ℕ) (scan : RepeatedTimestampScan)
    → (scan_loop cs (worst, scan)).1.dropped_samples ≡ scan.dropped_samples + total dropped cs
unfolding scan_loop
scan_loop-dropped [] worst scan = omega arith
scan_loop-dropped (none ∷ r) worst scan = scan_loop-dropped r worst scan
scan_loop-dropped (some s ∷ r) worst scan = omega (
  arith,
  scan_channel-dropped s worst scan,
  scan_loop-dropped r (scan_channel s worst scan).0 (scan_channel s worst scan).1,
)

abbrev pub own_rows : List ℤ → ℕ
own_rows ts = length (insert_times ts [])

total-dropped :
    (cs : List (Option Signal))
    → AllRise cs
    → total own_rows cs + total dropped cs ≡ total length cs
total-dropped [] s = omega arith
total-dropped (none ∷ r) s = total-dropped r s
total-dropped (some c ∷ r) s = omega (arith, dropped_lem c.timestamps s.0, total-dropped r s.1)

-- Where in no channel a timestamp is below the one before it: the samples that the scan counts as
-- dropped, and the rows with distinct timestamps that each channel has by itself, are together the
-- samples of all channels.
pub scan_repeated_timestamps_lem :
    (cs : List (Option Signal))
    → AllRise cs
    → total own_rows cs + (scan_repeated_timestamps cs).dropped_samples ≡ total length cs
unfolding scan_repeated_timestamps
scan_repeated_timestamps_lem cs s = omega (
  arith,
  total-dropped cs s,
  scan_loop-dropped cs 0 (record { channels = 0; dropped_samples = 0; worst_channel = [] }),
)
