-- ===== src/Recorder/NotifyChannel/Drain.antt =====
-- What one drain of NotifyChannel.cpp moves.
use scope_analyser.Prelude.{
  ℕ, zero, suc, ◌*◌, min, ◌≡◌, refl, ◌∙◌, ap, List, [], ◌∷◌, ◌++◌, arith, ltb, length, take, drop,
  if◌then◌else◌, Option-cases, inl, inr, take_all, length-append, length-take, All,
}
use scope_analyser.Core.Signal.{Signal, append, bytes_per_sample}
use scope_analyser.Core.Signal.Laws.{
  append-timestamps, append-values, append-meta, IsWellFormed, append-IsWellFormed,
}
use scope_analyser.Recorder.Interfaces.{QueuedSample, QueueOps, QueueLaws}
use scope_analyser.Recorder.NotifyChannel.{
  NotifyChannel, dequeue_batch, drain_to, timestamps_of, joined_values,
}

-- Samples of the signal's size.
abbrev pub Sized : ℕ → List QueuedSample → Type 0
Sized bytes = All (λ s. length s.value ≡ bytes)

pub Sized-take : (bytes n : ℕ) (l : List QueuedSample) → Sized bytes l → Sized bytes (take n l)
Sized-take bytes zero l h = tt
Sized-take bytes (suc n) [] h = tt
Sized-take bytes (suc n) (s ∷ l) h = (h.0, Sized-take bytes n l h.1)

pub Sized-drop : (bytes n : ℕ) (l : List QueuedSample) → Sized bytes l → Sized bytes (drop n l)
Sized-drop bytes zero l h = h
Sized-drop bytes (suc n) [] h = tt
Sized-drop bytes (suc n) (s ∷ l) h = Sized-drop bytes n l h.1

pub length-joined_values :
    (bytes : ℕ) (l : List QueuedSample)
    → Sized bytes l
    → length (joined_values l) ≡ length l * bytes
length-joined_values bytes [] h = omega arith
length-joined_values bytes (s ∷ l) h =
    omega (arith, length-append s.value (joined_values l), length-joined_values bytes l h.1)

pub length-timestamps_of : (l : List QueuedSample) → length (timestamps_of l) ≡ length l
length-timestamps_of [] = refl
length-timestamps_of (s ∷ l) = ap suc (length-timestamps_of l)

-- What the drain appends, for any batch.
abbrev pub append_batch : List QueuedSample → Signal → Signal
append_batch batch signal =
    if ltb 0 (length batch)
    then append (timestamps_of batch) (joined_values batch) (length batch) signal
    else signal

append_batch-append :
    (batch : List QueuedSample) (signal : Signal)
    → append_batch batch signal
      ≡ append (timestamps_of batch) (joined_values batch) (length batch) signal
unfolding append
append_batch-append [] signal = refl
append_batch-append (s ∷ r) signal = ground arith

pub append_batch-timestamps :
    (batch : List QueuedSample) (signal : Signal)
    → (append_batch batch signal).timestamps ≡ signal.timestamps ++ timestamps_of batch
append_batch-timestamps batch signal =
    ap (λ s. s.timestamps) (append_batch-append batch signal)
    ∙ append-timestamps signal _ _ _
    ∙ ap (signal.timestamps ++◌) (take_all _ _ (omega (arith, length-timestamps_of batch)))

pub append_batch-meta :
    (batch : List QueuedSample) (signal : Signal) → (append_batch batch signal).meta ≡ signal.meta
append_batch-meta batch signal =
    ap (λ s. s.meta) (append_batch-append batch signal) ∙ append-meta signal _ _ _

pub append_batch-values :
    (batch : List QueuedSample) (signal : Signal)
    → Sized (bytes_per_sample signal) batch
    → (append_batch batch signal).values ≡ signal.values ++ joined_values batch
append_batch-values batch signal h =
    ap (λ s. s.values) (append_batch-append batch signal)
    ∙ append-values signal _ _ _
    ∙ ap (signal.values ++◌)
        (take_all _ _ (omega (arith, length-joined_values (bytes_per_sample signal) batch h)))

pub append_batch-IsWellFormed :
    (batch : List QueuedSample) (signal : Signal)
    → Sized (bytes_per_sample signal) batch
    → IsWellFormed signal
    → IsWellFormed (append_batch batch signal)
append_batch-IsWellFormed batch signal h w = simp (append_batch-append batch signal) (
    append-IsWellFormed signal _ _ _ w (record {
      enough_ts = omega (arith, length-timestamps_of batch);
      enough_vs = omega (arith, length-joined_values (bytes_per_sample signal) batch h);
    }))

module _ {Queue : Type 0} (q : QueueOps Queue) (laws : QueueLaws q) where
  -- A batch is the front of the queue, up to the batch size, and the rest stays, in order.
  pub dequeue_batch_lem :
      (n : ℕ) (x : Queue)
      → ((dequeue_batch q n x).0 ≡ take n (q.items x))
        × (q.items (dequeue_batch q n x).1 ≡ drop n (q.items x))
  unfolding dequeue_batch
  dequeue_batch_lem zero x = (refl, refl)
  dequeue_batch_lem (suc n) x = elim (Option-cases (q.try_dequeue x)) [
    | inl done ↦ ground (arith, laws.dequeue-none x done)
    | inr ((s, y), e) ↦ ground (arith, laws.dequeue-some x s y e, dequeue_batch_lem n y)
  ]

  module _ (n : ℕ) (c : NotifyChannel Queue) (signal : Signal) where
    pub drain_to-batch : (drain_to q n c signal).1 ≡ append_batch (take n (q.items c.queue)) signal
    unfolding drain_to
    drain_to-batch = ap (λ l. append_batch l signal) (dequeue_batch_lem n c.queue).0

    -- A drain moves the timestamps of the oldest queued samples, at most the batch size, to the end
    -- of the signal's, leaves the others in the queue, and returns the number moved.
    pub drain_to-timestamps :
        ((drain_to q n c signal).1.timestamps
          ≡ signal.timestamps ++ timestamps_of (take n (q.items c.queue)))
        × (q.items (drain_to q n c signal).0.queue ≡ drop n (q.items c.queue))
        × ((drain_to q n c signal).2 ≡ min n (length (q.items c.queue)))
    unfolding drain_to
    drain_to-timestamps =
        let (b, r) = dequeue_batch_lem n c.queue in
        (
          append_batch-timestamps _ signal ∙ ap (λ l. signal.timestamps ++ timestamps_of l) b,
          r,
          ap length b ∙ length-take n (q.items c.queue),
        )
