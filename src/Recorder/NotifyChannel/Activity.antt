-- ===== src/Recorder/NotifyChannel/Activity.antt =====
-- Interleavings of the callback and writer threads of NotifyChannel.cpp, as sequences of steps.
use scope_analyser.Prelude.{
  ℕ, ◌+◌, ◌≡◌, refl, ◌∙◌, arith, true, List, [], ◌∷◌, ◌++◌, ◌==◌, length, if◌then◌else◌,
}
use scope_analyser.Core.Signal.{Signal}
use scope_analyser.Recorder.Interfaces.{QueuedSample, AdsSample, QueueOps}
use scope_analyser.Recorder.NotifyChannel.{NotifyChannel, on_ads_sample, queued_from, drain_to}

-- One step of the callback thread or of the writer thread.
pub data Activity : Type 0 where
  sampled : AdsSample → Activity
  drained : ℕ → Activity

-- The samples of the right size among the callbacks, and the number of the others.
abbrev pub accepted : ℕ → List Activity → List QueuedSample
accepted bytes [] = []
accepted bytes (sampled s ∷ r) =
    (if length s.payload == bytes then queued_from s ∷ [] else []) ++ accepted bytes r
accepted bytes (drained _ ∷ r) = accepted bytes r

abbrev pub refused : ℕ → List Activity → ℕ
refused bytes [] = 0
refused bytes (sampled s ∷ r) = (if length s.payload == bytes then 0 else 1) + refused bytes r
refused bytes (drained _ ∷ r) = refused bytes r

module _ {Queue : Type 0} (q : QueueOps Queue) where
  abbrev pub Pair : Type 0
  Pair = NotifyChannel Queue × Signal

  unfoldable pub activity_step : Activity → Pair → Pair
  activity_step (sampled s) (c, signal) = (on_ads_sample q s c, signal)
  activity_step (drained n) (c, signal) = ((drain_to q n c signal).0, (drain_to q n c signal).1)

  unfoldable pub run : List Activity → Pair → Pair
  run [] p = p
  run (a ∷ r) p = run r (activity_step a p)

  -- The queue takes every sample (it does while there is memory).
  abbrev pub Unbounded : Type 0
  Unbounded = (s : QueuedSample) (x : Queue) → (q.enqueue s x).1 ≡ true

  pub step-expected :
      (a : Activity) (p : Pair)
      → (activity_step a p).0.expected_sample_bytes ≡ p.0.expected_sample_bytes
  unfolding activity_step on_ads_sample drain_to
  step-expected (sampled s) (c, signal) = ground arith
  step-expected (drained n) (c, signal) = refl

  pub run-expected :
      (acts : List Activity) (p : Pair)
      → (run acts p).0.expected_sample_bytes ≡ p.0.expected_sample_bytes
  unfolding run
  run-expected [] p = refl
  run-expected (a ∷ r) p = run-expected r (activity_step a p) ∙ step-expected a p
