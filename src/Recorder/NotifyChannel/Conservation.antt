-- ===== src/Recorder/NotifyChannel/Conservation.antt =====
-- No sample is lost, repeated or reordered between the ADS callback and the signal of
-- NotifyChannel.cpp, however callbacks and drains interleave.
use mathlib.Core.Path.{ap₂}
use scope_analyser.Prelude.{
  ℕ, ◌≡◌, refl, ◌∙◌, ap, sym, List, [], ◌∷◌, ◌++◌, arith, take, append_assoc, append-nil,
  take-append-drop,
}
use scope_analyser.Prelude.Int.{ℤ}
use scope_analyser.Recorder.Interfaces.{QueuedSample, AdsSample, QueueOps, QueueLaws}
use scope_analyser.Recorder.NotifyChannel.{NotifyChannel, on_ads_sample, queued_from, timestamps_of}
use scope_analyser.Recorder.NotifyChannel.Activity.{
  step-expected, Activity, sampled, drained, accepted, activity_step, run, Pair, Unbounded,
}
use scope_analyser.Recorder.NotifyChannel.Drain.{drain_to-timestamps}

timestamps_of-append :
    (a b : List QueuedSample) → timestamps_of (a ++ b) ≡ timestamps_of a ++ timestamps_of b
timestamps_of-append [] b = refl
timestamps_of-append (s ∷ a) b = ap (s.ts ∷◌) (timestamps_of-append a b)

pub accepted-cons :
    (bytes : ℕ) (a : Activity) (r : List Activity)
    → accepted bytes (a ∷ r) ≡ accepted bytes (a ∷ []) ++ accepted bytes r
accepted-cons bytes (sampled s) r = rw append-nil
accepted-cons bytes (drained n) r = refl

module _ {Queue : Type 0} (q : QueueOps Queue) where
  -- What the pair holds so far: the signal's samples, then the queue's.
  abbrev pub all_timestamps : Pair q → List ℤ
  all_timestamps p = p.1.timestamps ++ timestamps_of (q.items p.0.queue)

  module _ (laws : QueueLaws q) (room : Unbounded q) where
    pub on_ads_sample-items :
        (s : AdsSample) (c : NotifyChannel Queue)
        → q.items (on_ads_sample q s c).queue
          ≡ q.items c.queue ++ accepted c.expected_sample_bytes (sampled s ∷ [])
    unfolding on_ads_sample
    on_ads_sample-items s c = ground (
      arith,
      laws.items-enqueue (queued_from s) c.queue,
      room (queued_from s) c.queue,
      append-nil (q.items c.queue),
    )

    step-timestamps :
        (a : Activity) (p : Pair q)
        → all_timestamps (activity_step q a p)
          ≡ all_timestamps p ++ timestamps_of (accepted p.0.expected_sample_bytes (a ∷ []))
    unfolding activity_step
    step-timestamps (sampled s) (c, signal) =
        ap (λ l. signal.timestamps ++ timestamps_of l) (on_ads_sample-items s c)
        ∙ ap (signal.timestamps ++◌) (timestamps_of-append (q.items c.queue) _)
        ∙ sym (append_assoc signal.timestamps _ _)
    step-timestamps (drained n) (c, signal) =
        let (moved, left, _) = drain_to-timestamps q laws n c signal in
        ap₂ (λ l r. l ++ timestamps_of r) moved left
        ∙ append_assoc signal.timestamps _ _
        ∙ ap (signal.timestamps ++◌) (
            sym (timestamps_of-append (take n (q.items c.queue)) _)
            ∙ ap timestamps_of (take-append-drop n (q.items c.queue)))
        ∙ sym (append-nil (signal.timestamps ++ timestamps_of (q.items c.queue)))

    -- With a queue that takes every sample: whatever the interleaving of callbacks and drains, the
    -- signal's timestamps followed by those still queued are those at the start followed by those of
    -- every callback of the right size, in the order of arrival.
    pub run-timestamps :
        (acts : List Activity) (p : Pair q)
        → all_timestamps (run q acts p)
          ≡ all_timestamps p ++ timestamps_of (accepted p.0.expected_sample_bytes acts)
    unfolding run
    run-timestamps [] p = sym (append-nil (all_timestamps p))
    run-timestamps (a ∷ r) p =
        let bytes = p.0.expected_sample_bytes in
        run-timestamps r (activity_step q a p)
        ∙ ap₂ (λ l n. l ++ timestamps_of (accepted n r)) (step-timestamps a p) (step-expected q a p)
        ∙ append_assoc (all_timestamps p) _ _
        ∙ ap (all_timestamps p ++◌) (
            sym (timestamps_of-append (accepted bytes (a ∷ [])) _)
            ∙ ap timestamps_of (sym (accepted-cons bytes a r)))
