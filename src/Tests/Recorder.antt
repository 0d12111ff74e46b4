-- ===== src/Tests/Recorder.antt =====
-- The theorems on recorder/ at concrete inputs.
use scope_analyser.Prelude.{ℕ, ◌≡◌, refl, Bool, true, false, some, List, [], ◌∷◌, length, get_elem?}
use scope_analyser.Prelude.Int.{pos}
use scope_analyser.Prelude.Text.{codes, eq_text}
use scope_analyser.Core.Types.{size_of}
use scope_analyser.Core.Signal.{Signal}
use scope_analyser.Recorder.Interfaces.{QueuedSample}
use scope_analyser.Recorder.NotifyChannel.{NotifyChannel, Config, arm}
use scope_analyser.Recorder.NotifyChannel.Activity.{
  Activity, sampled, drained, Pair, run, Unbounded,
}
use scope_analyser.Recorder.NotifyChannel.Conservation.{all_timestamps, run-timestamps}
use scope_analyser.Recorder.NotifyChannel.Values.{all_values, IsMatched, run-IsMatched, run-values}
use scope_analyser.Recorder.RecordingSession.{Session, Slot, Stats, max_batch, drain_slot, stop}
use scope_analyser.Recorder.RecordingSession.Stopping.{Disarmed, stop_lem}
use scope_analyser.Recorder.RecordingSession.Tick.{drain_slot_lem}
use scope_analyser.Recorder.RecordingSession.Start.{start}
use scope_analyser.Recorder.RecordingSession.Start.Laws.{Armed, start_refused, start_granted}
use scope_analyser.Tests.Core.{speed, speed_meta, speed-IsWellFormed, one_channel}
use scope_analyser.Tests.Instances.{
  list_queue, list_queue-QueueLaws, list_client, list_client-ClientLaws, log_file,
  log_file-FileLaws, Log, is_live, log_rows,
}

abbrev config : ℕ → Config
config group = record {
  meta = speed_meta;
  index_group = group;
  index_offset = 0;
  cycle_time_us = 1000;
}

abbrev queued : ℕ → ℕ → QueuedSample
queued t v = record { ts = pos t; value = v ∷ 0 ∷ [] }

-- A channel with two samples waiting, subscribed under the handle.
abbrev channel : ℕ → ℕ → NotifyChannel (List QueuedSample)
channel group handle = record {
  cfg = config group;
  handle = handle;
  queue = queued 30 3 ∷ queued 40 4 ∷ [];
  received_count = 2;
  overrun_count = 0;
  expected_sample_bytes = 2;
}

abbrev callback : ℕ → List ℕ → Activity
callback t bytes =
    sampled (record { plc_timestamp_ns = pos t; host_timestamp_ns = pos 0; payload = bytes })

-- A good callback, a drain of one, one of the wrong size, and a drain of all.
abbrev mixed : List Activity
mixed = callback 50 (5 ∷ 0 ∷ []) ∷ drained 1 ∷ callback 60 (6 ∷ []) ∷ drained 4096 ∷ []

abbrev start_pair : Pair list_queue
start_pair = (channel 1 7, speed)

list_queue-Unbounded : Unbounded list_queue
list_queue-Unbounded s x = refl

matched : IsMatched list_queue start_pair
unfolding size_of
matched = record { well = speed-IsWellFormed; size = refl; sized = (refl, (refl, tt)) }

run-timestamps_example :
    all_timestamps list_queue (run list_queue mixed start_pair)
    ≡ pos 10 ∷ pos 20 ∷ pos 30 ∷ pos 40 ∷ pos 50 ∷ []
run-timestamps_example =
    run-timestamps list_queue list_queue-QueueLaws list_queue-Unbounded mixed start_pair

run-IsMatched_example : IsMatched list_queue (run list_queue mixed start_pair)
run-IsMatched_example = run-IsMatched list_queue list_queue-QueueLaws mixed start_pair matched

run-values_example :
    all_values list_queue (run list_queue mixed start_pair)
    ≡ 1 ∷ 0 ∷ 2 ∷ 0 ∷ 3 ∷ 0 ∷ 4 ∷ 0 ∷ 5 ∷ 0 ∷ []
run-values_example =
    run-values list_queue list_queue-QueueLaws list_queue-Unbounded mixed start_pair matched

-- A session with one channel of the group, subscribed under the handle.
abbrev slot : ℕ → ℕ → Slot (List QueuedSample)
slot group handle = record {
  notify = some (channel group handle);
  signal = some 0;
  last_overruns = 0;
}

abbrev session :
    Bool → List (Slot (List QueuedSample)) → List ℕ → Session (List QueuedSample) (List ℕ) Log
session running slots client = record {
  store = one_channel;
  client = client;
  hdf5 = some ((codes "speed", pos 10 ∷ pos 20 ∷ []) ∷ []);
  slots = slots;
  running = running;
  ticking = running;
  notices = [];
}

abbrev no_stats : Stats
no_stats = record { samples_received = 0; overruns = 0; channels = 0 }

abbrev recording : Session (List QueuedSample) (List ℕ) Log
recording = session true (slot 1 7 ∷ []) (9 ∷ 7 ∷ [])

drain_slot_lem_example :
    (s' : Signal) × (f' : Log) × (get_elem?
        (drain_slot list_queue list_client log_file
          (channel 1 7)
          0
          speed
          (slot 1 7)
          no_stats
          recording).2.store.heap
        0
      ≡ some s')
    × ((drain_slot list_queue list_client log_file
          (channel 1 7)
          0
          speed
          (slot 1 7)
          no_stats
          recording).2.hdf5
        ≡ some f')
    × (s'.timestamps ≡ pos 10 ∷ pos 20 ∷ pos 30 ∷ pos 40 ∷ [])
    × (log_rows (codes "speed") f' ≡ pos 10 ∷ pos 20 ∷ pos 30 ∷ pos 40 ∷ [])
unfolding max_batch eq_text
drain_slot_lem_example =
    drain_slot_lem list_queue list_client log_file list_queue-QueueLaws log_file-FileLaws
      (channel 1 7) 0 speed (slot 1 7) no_stats recording
      ((codes "speed", pos 10 ∷ pos 20 ∷ []) ∷ []) (codes "speed") refl refl refl (λ ts vs n. refl)

stop_lem_example :
    Disarmed (stop list_queue list_client log_file recording).slots
    × ((stop list_queue list_client log_file recording).running ≡ false)
    × (is_live (stop list_queue list_client log_file recording).client 7 ≡ false)
stop_lem_example = stop_lem list_queue list_client log_file list_client-ClientLaws recording 7

-- Two channels: the second one's index group is refused by the client.
abbrev half_armable : Session (List QueuedSample) (List ℕ) Log
half_armable = session false (slot 1 0 ∷ slot 0 0 ∷ []) (9 ∷ [])

abbrev armable : Session (List QueuedSample) (List ℕ) Log
armable = session false (slot 1 0 ∷ slot 2 0 ∷ []) (9 ∷ [])

start_refused_example :
    Disarmed (start list_queue list_client log_file (codes "out") half_armable).0.slots
    × ((start list_queue list_client log_file (codes "out") half_armable).0.running ≡ false)
    × (is_live (start list_queue list_client log_file (codes "out") half_armable).0.client 10
        ≡ false)
unfolding start arm
start_refused_example =
    start_refused list_queue list_client log_file list_client-ClientLaws (codes "out") half_armable
      10 (refl, (refl, tt)) refl

start_granted_example :
    Armed (start list_queue list_client log_file (codes "out") armable).0.slots
    × ((start list_queue list_client log_file (codes "out") armable).0.running ≡ true)
    × (length (start list_queue list_client log_file (codes "out") armable).0.slots ≡ 2)
unfolding start arm
start_granted_example =
    start_granted list_queue list_client log_file (codes "out") armable refl refl
