-- ===== src/Recorder/RecordingSession/Tick.antt =====
-- What one tick of RecordingSession.cpp moves: from the queue to the shared signal and to the file.
use mathlib.Core.Path.{subst}
use scope_analyser.Prelude.{
  ℕ, ◌*◌, ◌≡◌, refl, ◌∙◌, ap, sym, Bool, true, false, some, List, [], ◌∷◌, ◌++◌, arith, ltb, length,
  take, drop, get_elem?, set, if◌then◌else◌, Bool-cases, inl, inr, get_elem?-set_self,
  lt-length_of_get_elem?, append-nil, take_all, length-take,
}
use scope_analyser.Prelude.Int.{ℤ}
use scope_analyser.Prelude.Text.{QString, eq_text}
use scope_analyser.Core.Signal.{Signal, bytes_per_sample}
use scope_analyser.Core.SignalStore.{notify_data_changed}
use scope_analyser.Recorder.Interfaces.{QueueOps, QueueLaws, ClientOps, FileOps, FileLaws}
use scope_analyser.Recorder.NotifyChannel.{NotifyChannel, drain_to, timestamps_of}
use scope_analyser.Recorder.NotifyChannel.Drain.{
  drain_to-timestamps, drain_to-batch, append_batch-meta, length-timestamps_of,
}
use scope_analyser.Recorder.RecordingSession.{
  max_batch, Slot, Session, Stats, write_new, drain_slot,
}

drop-append {ℓ} : {A : Type ℓ} (xs ys : List A) → drop (length xs) (xs ++ ys) ≡ ys
drop-append [] ys = refl
drop-append (x ∷ xs) ys = drop-append xs ys

no_rows :
    (b : Bool) (batch rows : List ℤ)
    → ltb 0 (length batch) ≡ false
    → rows ≡ (if b then rows ++ batch else rows)
no_rows true [] rows h = sym (append-nil rows)
no_rows false [] rows h = refl
no_rows b (t ∷ r) rows h = absurd (ground arith)

module _ {Queue Client File : Type 0} (q : QueueOps Queue) (api : ClientOps Client)
    (files : FileOps File) where
  -- The file as it is takes samples under the name, which is that of a registered channel.
  abbrev pub Takes : QString → File → Type 0
  Takes name f =
      (ts : List ℤ) (vs : List ℕ) (n : ℕ) → (files.append_samples name ts vs n f).1 ≡ true

  module _ (laws : QueueLaws q) (file_laws : FileLaws files) where
    -- The rows after the new samples are written.
    write_new-rows :
        (pre : List ℤ) (s : Signal) (batch : List ℤ) (f : File) (k : QString)
        → s.timestamps ≡ pre ++ batch
        → Takes s.meta.name f
        → (f' : File) × (write_new q api files (length pre) s (length batch) (some f) ≡ some f')
          × (files.rows k f'
              ≡ (if eq_text s.meta.name k then files.rows k f ++ batch else files.rows k f))
    unfolding write_new
    write_new-rows pre s batch f k e takes =
        let ts = drop (length pre) s.timestamps in
        let vs = drop (length pre * bytes_per_sample s) s.values in
        let n = length batch in
        (
          (files.append_samples s.meta.name ts vs n f).0,
          refl,
          ground (arith, file_laws.rows-append s.meta.name k ts vs n f, takes ts vs n, added),
        )
      where
        added : take (length batch) (drop (length pre) s.timestamps) ≡ batch
        added = rw e (rw (drop-append pre batch) (take_all (length batch) batch (omega arith)))

    drain_slot-hdf5 :
        (c : NotifyChannel Queue) (p : ℕ) (s : Signal) (slot : Slot Queue) (stats : Stats)
        (st : Session Queue Client File)
        → (drain_slot q api files c p s slot stats st).2.hdf5 ≡ (
            if ltb 0 (drain_to q max_batch c s).2
            then write_new q api files s.sample_count
                (drain_to q max_batch c s).1
                (drain_to q max_batch c s).2
                st.hdf5
            else st.hdf5)
    unfolding drain_slot
    drain_slot-hdf5 c p s slot stats st = ground arith

    drain_slot-heap :
        (c : NotifyChannel Queue) (p : ℕ) (s : Signal) (slot : Slot Queue) (stats : Stats)
        (st : Session Queue Client File)
        → (drain_slot q api files c p s slot stats st).2.store.heap
          ≡ set st.store.heap p (drain_to q max_batch c s).1
    unfolding drain_slot notify_data_changed
    drain_slot-heap c p s slot stats st = ground arith

    drained_count :
        (c : NotifyChannel Queue) (s : Signal)
        → (drain_to q max_batch c s).2 ≡ length (timestamps_of (take max_batch (q.items c.queue)))
    drained_count c s = omega (
      arith,
      drain_to-timestamps q laws max_batch c s,
      length-timestamps_of (take max_batch (q.items c.queue)),
      length-take max_batch (q.items c.queue),
    )

    drained-name :
        (c : NotifyChannel Queue) (s : Signal)
        → (drain_to q max_batch c s).1.meta.name ≡ s.meta.name
    drained-name c s =
        ap (λ r. r.meta.name) (drain_to-batch q laws max_batch c s)
        ∙ ap (λ m. m.name) (append_batch-meta (take max_batch (q.items c.queue)) s)

    -- The file after a slot, whether or not anything was drained.
    written :
        (c : NotifyChannel Queue) (s : Signal) (f : File) (k : QString) (pre_count : ℕ)
        → pre_count ≡ length s.timestamps
        → Takes s.meta.name f
        → (f' : File) × ((if ltb 0 (drain_to q max_batch c s).2
              then write_new q api files pre_count
                  (drain_to q max_batch c s).1
                  (drain_to q max_batch c s).2
                  (some f)
              else some f)
            ≡ some f')
          × (files.rows k f' ≡ (
              if eq_text s.meta.name k
              then files.rows k f ++ timestamps_of (take max_batch (q.items c.queue))
              else files.rows k f))
    written c s f k pre_count counted takes =
        let batch = timestamps_of (take max_batch (q.items c.queue)) in
        let s' = (drain_to q max_batch c s).1 in
        let moved = (drain_to-timestamps q laws max_batch c s).0 in
        let (f', new, rows) =
          write_new-rows s.timestamps s' batch f k moved
            (subst (λ n. Takes n f) (sym (drained-name c s)) takes) in
        elim (Bool-cases (ltb 0 (length batch))) [
          | inl some_new ↦
              (f', rw (drained_count c s, counted, some_new) new, rw (drained-name c s) at rows)
          | inr nothing ↦ (
            f,
            rw (drained_count c s, nothing) refl,
            no_rows (eq_text s.meta.name k) batch (files.rows k f) nothing,
          )
        ]

    -- One slot of a tick, with a live signal, and an open file that takes samples under the signal's
    -- name: the signal that the store shares gains the timestamps of the oldest queued samples, up
    -- to the batch size, and the file gains the same under the signal's name and nothing under any
    -- other.
    pub drain_slot_lem :
        (c : NotifyChannel Queue) (p : ℕ) (s : Signal) (slot : Slot Queue) (stats : Stats)
        (st : Session Queue Client File) (f : File) (k : QString)
        → get_elem? st.store.heap p ≡ some s
        → s.sample_count ≡ length s.timestamps
        → st.hdf5 ≡ some f
        → Takes s.meta.name f
        → (s' : Signal) × (f' : File) × (get_elem?
              (drain_slot q api files c p s slot stats st).2.store.heap
              p
            ≡ some s')
          × ((drain_slot q api files c p s slot stats st).2.hdf5 ≡ some f')
          × (s'.timestamps ≡ s.timestamps ++ timestamps_of (take max_batch (q.items c.queue)))
          × (files.rows k f' ≡ (
              if eq_text s.meta.name k
              then files.rows k f ++ timestamps_of (take max_batch (q.items c.queue))
              else files.rows k f))
    drain_slot_lem c p s slot stats st f k live counted open_file takes =
        let s' = (drain_to q max_batch c s).1 in
        let (f', new, rows) = written c s f k s.sample_count counted takes in
        (
          s',
          f',
          ap (λ l. get_elem? l p) (drain_slot-heap c p s slot stats st)
              ∙ get_elem?-set_self st.store.heap p s' (lt-length_of_get_elem? st.store.heap p live),
          drain_slot-hdf5 c p s slot stats st ∙ rw open_file new,
          (drain_to-timestamps q laws max_batch c s).0,
          rows,
        )
