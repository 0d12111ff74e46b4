-- ===== src/Recorder/NotifyChannel/Values.antt =====
-- The recorded bytes and the counters of NotifyChannel.cpp under every interleaving.
use mathlib.Core.Path.{ap₂}
use scope_analyser.Prelude.{
  ℕ, ◌+◌, ◌%◌, ◌≡◌, refl, ◌∙◌, ap, sym, List, [], ◌∷◌, ◌++◌, arith, length, take, append_assoc,
  append-nil, take-append-drop, inl, inr, ◌⊎◌, All-append, length-append,
}
use scope_analyser.Prelude.Words.{u64_mod}
use scope_analyser.Core.Signal.{Signal, bytes_per_sample}
use scope_analyser.Core.Types.{size_of}
use scope_analyser.Core.Signal.Laws.{IsWellFormed}
use scope_analyser.Recorder.Interfaces.{QueuedSample, AdsSample, QueueOps, QueueLaws}
use scope_analyser.Recorder.NotifyChannel.{
  NotifyChannel, on_ads_sample, queued_from, drain_to, joined_values,
}
use scope_analyser.Recorder.NotifyChannel.Activity.{
  step-expected, Activity, sampled, drained, accepted, refused, activity_step, run, Pair, Unbounded,
}
use scope_analyser.Recorder.NotifyChannel.Drain.{
  Sized, Sized-take, Sized-drop, append_batch-values, append_batch-meta, append_batch-IsWellFormed,
  drain_to-batch, drain_to-timestamps,
}
use scope_analyser.Recorder.NotifyChannel.Conservation.{accepted-cons, on_ads_sample-items}

joined_values-append :
    (a b : List QueuedSample) → joined_values (a ++ b) ≡ joined_values a ++ joined_values b
joined_values-append [] b = refl
joined_values-append (s ∷ a) b = rw (joined_values-append a b) (sym (append_assoc s.value _ _))

refused-cons :
    (bytes : ℕ) (a : Activity) (r : List Activity)
    → refused bytes (a ∷ r) ≡ refused bytes (a ∷ []) + refused bytes r
refused-cons bytes (sampled s) r = omega arith
refused-cons bytes (drained n) r = omega arith

module _ {Queue : Type 0} (q : QueueOps Queue) where
  abbrev pub all_values : Pair q → List ℕ
  all_values p = p.1.values ++ joined_values (q.items p.0.queue)

  -- The channel and its signal agree on the size of a sample, and the queue holds only such.
  pub record IsMatched (p : Pair q) : Type 0 where
    pub well : IsWellFormed p.1
    pub size : p.0.expected_sample_bytes ≡ bytes_per_sample p.1
    pub sized : Sized p.0.expected_sample_bytes (q.items p.0.queue)

  module _ (laws : QueueLaws q) where
    on_ads_sample-cases :
        (s : AdsSample) (c : NotifyChannel Queue)
        → (q.items (on_ads_sample q s c).queue ≡ q.items c.queue)
          ⊎ ((q.items (on_ads_sample q s c).queue ≡ q.items c.queue ++ queued_from s ∷ [])
              × (length s.payload ≡ c.expected_sample_bytes))
    unfolding on_ads_sample
    on_ads_sample-cases s c = ground (arith, laws.items-enqueue (queued_from s) c.queue)

    sampled-IsMatched :
        (s : AdsSample) (c : NotifyChannel Queue) (signal : Signal)
        → IsMatched (c, signal)
        → IsMatched (on_ads_sample q s c, signal)
    unfolding activity_step
    sampled-IsMatched s c signal m = record {
      well = m.well;
      size = step-expected q (sampled s) (c, signal) ∙ m.size;
      sized = rw (step-expected q (sampled s) (c, signal)) (elim (on_ads_sample-cases s c) [
        | inl same ↦ rw same m.sized
        | inr (grown, fits) ↦ rw grown (All-append _ _ _ m.sized (fits, tt))
      ]);
    }

    drained-IsMatched :
        (n : ℕ) (c : NotifyChannel Queue) (signal : Signal)
        → IsMatched (c, signal)
        → IsMatched ((drain_to q n c signal).0, (drain_to q n c signal).1)
    unfolding activity_step
    drained-IsMatched n c signal m =
        let (_, left, _) = drain_to-timestamps q laws n c signal in
        let sized' = Sized-take c.expected_sample_bytes n (q.items c.queue) m.sized in
        record {
          well = simp (drain_to-batch q laws n c signal) (
              append_batch-IsWellFormed (take n (q.items c.queue)) signal (rw m.size at sized')
                m.well);
          size =
              step-expected q (drained n) (c, signal)
              ∙ m.size
              ∙ ap (λ s. size_of s.data_type)
                  (sym (
                    ap (λ s. s.meta) (drain_to-batch q laws n c signal)
                    ∙ append_batch-meta (take n (q.items c.queue)) signal));
          sized =
              rw (step-expected q (drained n) (c, signal), left)
                (Sized-drop c.expected_sample_bytes n (q.items c.queue) m.sized);
        }

    step-IsMatched : (a : Activity) (p : Pair q) → IsMatched p → IsMatched (activity_step q a p)
    unfolding activity_step
    step-IsMatched (sampled s) (c, signal) m = sampled-IsMatched s c signal m
    step-IsMatched (drained n) (c, signal) m = drained-IsMatched n c signal m

    -- However callbacks and drains interleave, the signal stays well-formed, the channel agrees with
    -- it on the size of a sample, and every queued sample has that size.
    pub run-IsMatched : (acts : List Activity) (p : Pair q) → IsMatched p → IsMatched (run q acts p)
    unfolding run
    run-IsMatched [] p m = m
    run-IsMatched (a ∷ r) p m = run-IsMatched r (activity_step q a p) (step-IsMatched a p m)

    module _ (room : Unbounded q) where
      step-values :
          (a : Activity) (p : Pair q)
          → IsMatched p
          → all_values (activity_step q a p)
            ≡ all_values p ++ joined_values (accepted p.0.expected_sample_bytes (a ∷ []))
      unfolding activity_step
      step-values (sampled s) (c, signal) m =
          ap (λ l. signal.values ++ joined_values l) (on_ads_sample-items q laws room s c)
          ∙ ap (signal.values ++◌) (joined_values-append (q.items c.queue) _)
          ∙ sym (append_assoc signal.values _ _)
      step-values (drained n) (c, signal) m =
          let (_, left, _) = drain_to-timestamps q laws n c signal in
          let sized' = Sized-take c.expected_sample_bytes n (q.items c.queue) m.sized in
          ap₂ (λ l r. l ++ joined_values r)
            (ap (λ s. s.values) (drain_to-batch q laws n c signal)
              ∙ append_batch-values (take n (q.items c.queue)) signal (rw m.size at sized'))
            left
          ∙ append_assoc signal.values _ _
          ∙ ap (signal.values ++◌) (
              sym (joined_values-append (take n (q.items c.queue)) _)
              ∙ ap joined_values (take-append-drop n (q.items c.queue)))
          ∙ sym (append-nil (signal.values ++ joined_values (q.items c.queue)))

      -- With a queue that takes every sample, from a channel that agrees with its signal on the size
      -- of a sample: whatever the interleaving of callbacks and drains, the signal's bytes followed
      -- by the queued ones are those at the start followed by the payloads of the callbacks of the
      -- right size, in the order of arrival.
      pub run-values :
          (acts : List Activity) (p : Pair q)
          → IsMatched p
          → all_values (run q acts p)
            ≡ all_values p ++ joined_values (accepted p.0.expected_sample_bytes acts)
      unfolding run
      run-values [] p m = sym (append-nil (all_values p))
      run-values (a ∷ r) p m =
          run-values r (activity_step q a p) (step-IsMatched a p m)
          ∙ ap₂ (λ l n. l ++ joined_values (accepted n r)) (step-values a p m) (step-expected q a p)
          ∙ append_assoc (all_values p) _ _
          ∙ ap (all_values p ++◌) (
              sym (joined_values-append (accepted p.0.expected_sample_bytes (a ∷ [])) _)
              ∙ ap joined_values (sym (accepted-cons p.0.expected_sample_bytes a r)))

      step-counters :
          (a : Activity) (p : Pair q)
          → ((activity_step q a p).0.received_count % u64_mod
              ≡ (p.0.received_count + length (accepted p.0.expected_sample_bytes (a ∷ [])))
                % u64_mod)
            × ((activity_step q a p).0.overrun_count % u64_mod
                ≡ (p.0.overrun_count + refused p.0.expected_sample_bytes (a ∷ [])) % u64_mod)
      unfolding activity_step on_ads_sample drain_to
      step-counters (sampled s) (c, signal) = ground (arith, room (queued_from s) c.queue)
      step-counters (drained n) (c, signal) = (omega arith, omega arith)

      -- With a queue that takes every sample, the counters up to their wrap at 2^64: a callback of
      -- the right size is counted as received, any other as an overrun, and a drain changes neither.
      pub run-counters :
          (acts : List Activity) (p : Pair q)
          → ((run q acts p).0.received_count % u64_mod
              ≡ (p.0.received_count + length (accepted p.0.expected_sample_bytes acts)) % u64_mod)
            × ((run q acts p).0.overrun_count % u64_mod
                ≡ (p.0.overrun_count + refused p.0.expected_sample_bytes acts) % u64_mod)
      unfolding run activity_step
      run-counters [] p = (omega arith, omega arith)
      run-counters (a ∷ r) p =
          let bytes = p.0.expected_sample_bytes in
          let rest = rw (step-expected q a p) at (run-counters r (activity_step q a p)) in
          let step = step-counters a p in
          (
            omega (
              arith,
              rest.0,
              step.0,
              ap length (accepted-cons bytes a r),
              length-append (accepted bytes (a ∷ [])) (accepted bytes r),
            ),
            omega (arith, rest.1, step.1, refused-cons bytes a r),
          )
