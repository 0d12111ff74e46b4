-- ===== src/Recorder/NotifyChannel.antt =====
-- `NotifyChannel` (recorder/include/scope/recorder/NotifyChannel.h, recorder/src/NotifyChannel.cpp).
-- The ADS callback and the writer's drain are steps that interleave; the two counters are 64-bit.
pub mod Drain
pub mod Activity
pub mod Conservation
pub mod Values
use scope_analyser.Prelude.{
  ℕ, zero, suc, ◌+◌, ◌%◌, Bool, true, false, not, Option, none, some, List, [], ◌∷◌, ◌++◌, map,
  ◌==◌, ltb, length, if◌then◌else◌,
}
use scope_analyser.Prelude.Words.{u32_mod, u64_mod}
use scope_analyser.Prelude.Int.{ℤ, pos, eqb_ℤ}
use scope_analyser.Core.Types.{size_of}
use scope_analyser.Core.Signal.{Signal, Meta, append}
use scope_analyser.Recorder.Interfaces.{
  QueuedSample, AdsSample, AdsNotificationSpec, QueueOps, ClientOps,
}

-- `NotifyChannel::Config`
pub record Config : Type 0 where
  pub meta : Meta
  pub index_group : ℕ
  pub index_offset : ℕ
  pub cycle_time_us : ℕ

pub record NotifyChannel (Queue : Type 0) : Type 0 where
  pub cfg : Config
  pub handle : ℕ
  pub queue : Queue
  pub received_count : ℕ
  pub overrun_count : ℕ
  pub expected_sample_bytes : ℕ

abbrev pub bump : ℕ → ℕ
bump n = (n + 1) % u64_mod

-- The bytes of the samples, one after the other.
abbrev pub joined_values : List QueuedSample → List ℕ
joined_values [] = []
joined_values (s ∷ r) = s.value ++ joined_values r

abbrev pub timestamps_of : List QueuedSample → List ℤ
timestamps_of = map (λ s. s.ts)

-- The sample that the callback queues.
abbrev pub queued_from : AdsSample → QueuedSample
queued_from s = record {
  ts = if eqb_ℤ s.plc_timestamp_ns (pos 0) then s.host_timestamp_ns else s.plc_timestamp_ns;
  value = s.payload;
}

module _ {Queue : Type 0} (q : QueueOps Queue) where
  -- The constructor.
  unfoldable pub new : Config → NotifyChannel Queue
  new cfg = record {
    cfg = cfg;
    handle = 0;
    queue = q.empty;
    received_count = 0;
    overrun_count = 0;
    expected_sample_bytes = size_of cfg.meta.data_type;
  }

  -- `onAdsSample`
  unfoldable pub on_ads_sample : AdsSample → NotifyChannel Queue → NotifyChannel Queue
  on_ads_sample s c =
      if not (length s.payload == c.expected_sample_bytes)
      then record c { overrun_count = bump c.overrun_count }
      else let pushed = q.enqueue (queued_from s) c.queue in
        if not pushed.1
        then record c { queue = pushed.0; overrun_count = bump c.overrun_count }
        else record c { queue = pushed.0; received_count = bump c.received_count }

  -- `while (drained < maxBatch && queue_.try_dequeue(item))`
  unfoldable pub dequeue_batch : ℕ → Queue → List QueuedSample × Queue
  dequeue_batch zero x = ([], x)
  dequeue_batch (suc n) x = elim (q.try_dequeue x) [
    | none ↦ ([], x)
    | some (s, y) ↦ (s ∷ (dequeue_batch n y).0, (dequeue_batch n y).1)
  ]

  -- `drainTo`: the channel, the signal and the number of samples moved.
  unfoldable pub drain_to : ℕ → NotifyChannel Queue → Signal → NotifyChannel Queue × Signal × ℕ
  drain_to max_batch c signal =
      let (batch, rest) = dequeue_batch max_batch c.queue in
      let drained = length batch in
      (
        record c { queue = rest },
        if ltb 0 drained
            then append (timestamps_of batch) (joined_values batch) drained signal
            else signal,
        drained,
      )

module _ {Queue Client : Type 0} (api : ClientOps Client) where
  abbrev pub spec_of : NotifyChannel Queue → AdsNotificationSpec
  spec_of c = record {
    index_group = c.cfg.index_group;
    index_offset = c.cfg.index_offset;
    length_bytes = c.expected_sample_bytes % u32_mod;
    cycle_time_us = c.cfg.cycle_time_us;
    max_age_us = 0;
  }

  -- `arm`: the channel, the client and whether the channel is armed.
  unfoldable pub arm : NotifyChannel Queue → Client → NotifyChannel Queue × Client × Bool
  arm c client =
      if not (c.handle == 0)
      then (c, client, true)
      else let added = api.add_notification (spec_of c) client in
        (record c { handle = added.1 }, added.0, not (added.1 == 0))

  unfoldable pub disarm : NotifyChannel Queue → Client → NotifyChannel Queue × Client
  disarm c client =
      if c.handle == 0
      then (c, client)
      else (record c { handle = 0 }, api.remove_notification c.handle client)
