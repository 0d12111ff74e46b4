-- ===== src/Recorder/RecordingSession.antt =====
-- `RecordingSession` (recorder/include/scope/recorder/RecordingSession.h,
-- recorder/src/RecordingSession.cpp). The store, with the heap of signals, and the client are
-- shared with the rest of the program; the session's state holds them. Log lines are left out.
pub mod Stopping
pub mod Tick
pub mod Start
use scope_analyser.Prelude.{
  ℕ, ◌+◌, ◌*◌, ◌%◌, Bool, true, false, not, ◌&&◌, Option, none, some, List, [], ◌∷◌, ◌++◌, ltb,
  length, get_elem?, set, drop, is_empty, if◌then◌else◌,
}
use scope_analyser.Prelude.Words.{u64_mod}
use scope_analyser.Prelude.Text.{QString}
use scope_analyser.Core.Signal.{Signal, bytes_per_sample}
use scope_analyser.Core.Signal
use scope_analyser.Core.SignalStore.{SignalStore, add, allocate, notify_data_changed}
use scope_analyser.Recorder.Interfaces.{QueueOps, ClientOps, FileOps}
use scope_analyser.Recorder.NotifyChannel
use scope_analyser.Recorder.NotifyChannel.{NotifyChannel, Config, drain_to, arm, disarm}

pub record Slot (Queue : Type 0) : Type 0 where
  pub notify : Option (NotifyChannel Queue)
  pub signal : Option ℕ
  pub last_overruns : ℕ

pub record Stats : Type 0 where
  pub samples_received : ℕ
  pub overruns : ℕ
  pub channels : ℕ

-- The session's own Qt signals.
pub data Notice : Type 0 where
  stats_changed : Stats → Notice
  channel_overrun : QString → ℕ → Notice

pub record Session (Queue Client File : Type 0) : Type 0 where
  pub store : SignalStore
  pub client : Client
  pub hdf5 : Option File
  pub slots : List (Slot Queue)
  pub running : Bool
  pub ticking : Bool
  pub notices : List Notice

-- `drainTo`'s default batch.
unfoldable pub max_batch : ℕ
max_batch = 4096

module _ {Queue Client File : Type 0} (q : QueueOps Queue) (api : ClientOps Client)
    (files : FileOps File) where
  add_channel_slot : Config → Session Queue Client File → Session Queue Client File
  add_channel_slot cfg st =
      let p = length st.store.heap in
      record st {
        store = add (some p) (allocate (Signal.new cfg.meta) st.store);
        slots =
            st.slots
            ++ (record {
              notify = some (NotifyChannel.new q cfg);
              signal = some p;
              last_overruns = 0;
            })
              ∷ [];
      }

  -- `addNotifyChannels`, which always succeeds.
  unfoldable pub add_notify_channels :
      List Config → Session Queue Client File → Session Queue Client File
  unfolding add_channel_slot
  add_notify_channels [] st = st
  add_notify_channels (cfg ∷ r) st = add_notify_channels r (add_channel_slot cfg st)

  -- What a drained slot writes to the file, from the samples that were there before on.
  unfoldable pub write_new : ℕ → Signal → ℕ → Option File → Option File
  write_new pre_count s drained none = none
  write_new pre_count s drained (some f) =
      some
        (files.append_samples s.meta.name (drop pre_count s.timestamps)
          (drop (pre_count * bytes_per_sample s) s.values) drained f).0

  record_overruns : QString → ℕ → Slot Queue → List Notice → Slot Queue × List Notice
  record_overruns name overruns slot notices =
      if ltb slot.last_overruns overruns
      then (record slot { last_overruns = overruns }, notices ++ channel_overrun name overruns ∷ [])
      else (slot, notices)

  -- One slot of `onDrainTick` whose channel and signal are there.
  unfoldable pub drain_slot :
      NotifyChannel Queue
      → ℕ
      → Signal
      → Slot Queue
      → Stats
      → Session Queue Client File
      → Slot Queue × Stats × Session Queue Client File
  unfolding write_new record_overruns
  drain_slot c p s slot stats st =
      let (c', s', drained) = drain_to q max_batch c s in
      let name = s'.meta.name in
      let stored = record st.store { heap = set st.store.heap p s' } in
      let grown =
        if ltb 0 drained
        then record st {
          store = notify_data_changed name stored;
          hdf5 = write_new s.sample_count s' drained st.hdf5;
        }
        else record st { store = stored } in
      let (slot', notices) =
        record_overruns name c'.overrun_count (record slot { notify = some c' }) st.notices in
      (
        slot',
        record stats {
          samples_received = (stats.samples_received + c'.received_count) % u64_mod;
          overruns = (stats.overruns + c'.overrun_count) % u64_mod;
        },
        record grown { notices = notices },
      )

  -- A slot with no channel or no signal is passed over.
  unfoldable pub tick_slot :
      Slot Queue
      → Stats
      → Session Queue Client File
      → Slot Queue × Stats × Session Queue Client File
  tick_slot slot stats st = elim slot.notify [
    | none ↦ (slot, stats, st)
    | some c ↦ elim slot.signal [
      | none ↦ (slot, stats, st)
      | some p ↦ elim (get_elem? st.store.heap p) [
        | none ↦ (slot, stats, st)
        | some s ↦ drain_slot c p s slot stats st
      ]
    ]
  ]

  -- The loop over the slots.
  unfoldable pub tick_slots :
      List (Slot Queue)
      → Stats
      → Session Queue Client File
      → List (Slot Queue) × Stats × Session Queue Client File
  tick_slots [] stats st = ([], stats, st)
  tick_slots (slot ∷ r) stats st =
      let (slot', stats', st') = tick_slot slot stats st in
      let (r', stats'', st'') = tick_slots r stats' st' in (slot' ∷ r', stats'', st'')

  unfoldable pub on_drain_tick : Session Queue Client File → Session Queue Client File
  on_drain_tick st =
      let (slots, stats, st') =
        tick_slots st.slots (record { samples_received = 0; overruns = 0; channels = 0 }) st in
      record st' {
        slots = slots;
        notices = st'.notices ++ stats_changed (record stats { channels = length st.slots }) ∷ [];
      }

  disarm_slot : Slot Queue → Client → Slot Queue × Client
  disarm_slot s x = elim s.notify [
    | none ↦ (s, x)
    | some c ↦ (record s { notify = some (disarm api c x).0 }, (disarm api c x).1)
  ]

  -- The loop of `stop` that disarms every channel.
  unfoldable pub disarm_all : List (Slot Queue) → Client → List (Slot Queue) × Client
  unfolding disarm_slot
  disarm_all [] client = ([], client)
  disarm_all (slot ∷ r) client =
      let (slot', client') = disarm_slot slot client in
      let (r', client'') = disarm_all r client' in (slot' ∷ r', client'')

  -- The session with its timer stopped and its channels disarmed.
  pub quiet : Session Queue Client File → Session Queue Client File
  quiet st =
      let (slots, client) = disarm_all st.slots st.client in
      record st { ticking = false; running = false; slots = slots; client = client }

  unfoldable pub flush_file : Option File → Option File
  flush_file none = none
  flush_file (some f) = some (files.flush f)

  unfoldable pub stop : Session Queue Client File → Session Queue Client File
  unfolding quiet
  stop st =
      if not st.running && is_empty st.slots
      then st
      else let quieted = quiet st in
        record (on_drain_tick (record quieted { hdf5 = flush_file quieted.hdf5 })) { hdf5 = none }

-- The sums of `currentStats`, over the slots that have a channel.
unfoldable pub slot_stats : {Queue : Type 0} → List (Slot Queue) → Stats → Stats
slot_stats [] stats = stats
slot_stats (slot ∷ r) stats = elim slot.notify [
  | none ↦ slot_stats r stats
  | some c ↦ slot_stats r (record stats {
    samples_received = (stats.samples_received + c.received_count) % u64_mod;
    overruns = (stats.overruns + c.overrun_count) % u64_mod;
  })
]

-- `currentStats`
unfoldable pub current_stats : {Queue Client File : Type 0} → Session Queue Client File → Stats
current_stats st =
    record (slot_stats st.slots (record { samples_received = 0; overruns = 0; channels = 0 })) {
      channels = length st.slots;
    }
