-- ===== src/Core/Signal/Laws.antt =====
-- The invariant of Signal.cpp and what `append` does to the samples.
use scope_analyser.Prelude.{
  ℕ, take_all, ap, sym, min, ◌+◌, ◌*◌, ◌≤◌, ◌≡◌, refl, ◌∙◌, List, ◌++◌, arith, length, take,
  length-append, length-take, append-nil,
}
use scope_analyser.Prelude.Int.{ℤ}
use scope_analyser.Core.Types.{size_of}
use scope_analyser.Core.Signal.{
  Signal, Meta, new, append, bytes_per_sample, set_meta, snapshot_for_read,
}

-- As many value bytes as the samples take, and the counter that readers poll is their number.
pub record IsWellFormed (s : Signal) : Type 0 where
  pub bytes : length s.values ≡ length s.timestamps * bytes_per_sample s
  pub counted : s.sample_count ≡ length s.timestamps

-- The buffers hold at least `count` samples of the signal's type.
pub record Holds (s : Signal) (ts : List ℤ) (vs : List ℕ) (count : ℕ) : Type 0 where
  pub enough_ts : count ≤ length ts
  pub enough_vs : count * bytes_per_sample s ≤ length vs

block_bytes :
    (v t b c lv lt : ℕ) → v ≡ t * b → c ≤ lt → c * b ≤ lv → v + min (c * b) lv ≡ (t + min c lt) * b
block_bytes v t b c lv lt e h k =
    let ts : min c lt ≡ c = omega arith in
    let vs : min (c * b) lv ≡ c * b = omega arith in rw (ts, vs) (omega arith)

module _ (s : Signal) (ts : List ℤ) (vs : List ℕ) (count : ℕ) where
  -- What `append` adds, for any count.
  pub append-timestamps : (append ts vs count s).timestamps ≡ s.timestamps ++ take count ts
  unfolding append
  append-timestamps = ground (arith, append-nil s.timestamps)

  pub append-values :
      (append ts vs count s).values ≡ s.values ++ take (count * bytes_per_sample s) vs
  unfolding append
  append-values = ground (arith, append-nil s.values)

  pub append-meta : (append ts vs count s).meta ≡ s.meta
  unfolding append
  append-meta = ground arith

  append-count :
      s.sample_count ≡ length s.timestamps
      → (append ts vs count s).sample_count ≡ length (append ts vs count s).timestamps
  unfolding append
  append-count h = ground arith

  -- Appending samples from buffers that hold them keeps a signal well-formed: as many values' bytes
  -- as its timestamps take, and a sample count that is their number.
  pub append-IsWellFormed :
      IsWellFormed s → Holds s ts vs count → IsWellFormed (append ts vs count s)
  append-IsWellFormed w h = record {
    bytes =
        simp (append-values, append-timestamps, append-meta, length-append, length-take)
          (block_bytes _ _ _ count _ _ w.bytes h.enough_ts h.enough_vs);
    counted = append-count w.counted;
  }

pub new-IsWellFormed : (m : Meta) → IsWellFormed (new m)
new-IsWellFormed m = record { bytes = omega arith; counted = refl }

-- New metadata of the same sample size keeps the invariant.
pub set_meta-IsWellFormed :
    (m : Meta) (s : Signal)
    → size_of m.data_type ≡ bytes_per_sample s
    → IsWellFormed s
    → IsWellFormed (set_meta m s)
unfolding set_meta
set_meta-IsWellFormed m s e w = record { bytes = rw e w.bytes; counted = w.counted }

pub Signal-ext :
    (a b : Signal)
    → a.meta ≡ b.meta
    → a.timestamps ≡ b.timestamps
    → a.values ≡ b.values
    → a.sample_count ≡ b.sample_count
    → a ≡ b
Signal-ext a b m t v c =
    λ i. record { meta = m i; timestamps = t i; values = v i; sample_count = c i }

-- Appending the whole of a signal's view to an empty signal copies it.
pub append-snapshot :
    (m : Meta) (s : Signal)
    → m.data_type ≡ s.meta.data_type
    → IsWellFormed s
    → append
        (snapshot_for_read s).timestamps
        (snapshot_for_read s).values
        (snapshot_for_read s).count
        (new m)
      ≡ record s { meta = m }
unfolding snapshot_for_read
append-snapshot m s e w =
    let n : ℕ = length s.timestamps in
    let ts =
      append-timestamps (new m) s.timestamps s.values n ∙ take_all n s.timestamps (omega arith) in
    Signal-ext _ _ (append-meta (new m) s.timestamps s.values n) ts
      (append-values (new m) s.timestamps s.values n
        ∙ take_all _ s.values (rw e (omega (arith, w.bytes))))
      (append-count (new m) s.timestamps s.values n refl ∙ ap length ts ∙ sym w.counted)
