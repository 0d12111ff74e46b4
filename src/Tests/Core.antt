-- ===== src/Tests/Core.antt =====
-- The theorems on core/ at concrete inputs.
use scope_analyser.Prelude.{
  get_elem?, none, ℕ, ◌≡◌, ◌≢◌, refl, true, false, some, List, [], ◌∷◌, arith,
}
use scope_analyser.Prelude.Int.{pos}
use scope_analyser.Prelude.Text.{QString, codes, eq_text}
use scope_analyser.Prelude.Dict.{find, has, insert_or_assign}
use scope_analyser.Core.Types.{DataType, AcquisitionMode, Domain, size_of}
use scope_analyser.Core.Types
use scope_analyser.Core.Signal.{Meta, Signal, append, no_source_start}
use scope_analyser.Core.Signal.Laws.{IsWellFormed, Holds, append-IsWellFormed}
use scope_analyser.Core.SignalStore.{
  SignalStore, add, rename, get, contains, channel_added, channel_renamed,
}
use scope_analyser.Core.SignalStore.Laws.{IsConsistent, add-IsConsistent, rename-grants, rename_lem}
use scope_analyser.Core.SignalStore.Consistency.{rename-IsConsistent}
use scope_analyser.Core.UndoStack.{Action, Tool, edit, commit_call, commit, undo, redo}
use scope_analyser.Core.UndoStack.Zipper.{History}
use scope_analyser.Core.UndoStack.Refinement.{Represents, commit-refines}
use scope_analyser.Core.UndoStack.Undo.{undo-refines, redo-refines}

-- A tool whose document is a number; its restoring code calls back into `commit`.
abbrev restore_number : ℕ → List (Action ℕ)
restore_number s = edit (λ _. s) ∷ commit_call ∷ []

abbrev three_entries : Tool ℕ ℕ
three_entries = record {
  doc = 5;
  hist = record {
    max_depth = 3;
    snaps = 1 ∷ 2 ∷ 3 ∷ [];
    cursor = pos 1;
    applying = false;
    notified = 0;
  };
}

abbrev same_number : ℕ → ℕ
same_number d = d

abbrev middle : History ℕ
middle = record { past = 1 ∷ []; now = 2; future = 3 ∷ [] }

three_entries-Represents : Represents three_entries.hist middle
three_entries-Represents = record {
  entries = refl;
  at_now = refl;
  settled = refl;
  fits = omega arith;
  two = omega arith;
}

commit-refines_example :
    Represents
      (commit same_number restore_number three_entries).hist
      (record { past = 2 ∷ 1 ∷ []; now = 5; future = [] })
commit-refines_example =
    commit-refines same_number restore_number three_entries middle three_entries-Represents

undo-refines_example :
    Represents
      (undo same_number restore_number three_entries).hist
      (record { past = []; now = 1; future = 2 ∷ 3 ∷ [] })
    × ((undo same_number restore_number three_entries).doc ≡ 1)
undo-refines_example =
    undo-refines same_number restore_number three_entries middle three_entries-Represents

redo-refines_example :
    Represents
      (redo same_number restore_number three_entries).hist
      (record { past = 2 ∷ 1 ∷ []; now = 3; future = [] })
    × ((redo same_number restore_number three_entries).doc ≡ 3)
redo-refines_example =
    redo-refines same_number restore_number three_entries middle three_entries-Represents

past_there : middle.past ≢ []
past_there e = cc

-- A signal of two 16-bit samples.
abbrev pub speed_meta : Meta
speed_meta = record {
  name = codes "speed";
  unit = codes "mm";
  data_type = Types.int16;
  mode = Types.ads_notify;
  sample_rate_hz = 0;
  parent_task_cycle_us = 0;
  source_symbol = codes "MAIN.speed";
  domain = Types.time;
  source_start_ns = no_source_start;
}

abbrev pub speed : Signal
speed = record {
  meta = speed_meta;
  timestamps = pos 10 ∷ pos 20 ∷ [];
  values = 1 ∷ 0 ∷ 2 ∷ 0 ∷ [];
  sample_count = 2;
}

pub speed-IsWellFormed : IsWellFormed speed
unfolding size_of
speed-IsWellFormed = record { bytes = refl; counted = refl }

one_more : Holds speed (pos 30 ∷ []) (3 ∷ 0 ∷ []) 1
unfolding size_of
one_more = record { enough_ts = omega arith; enough_vs = omega arith }

append-IsWellFormed_example : IsWellFormed (append (pos 30 ∷ []) (3 ∷ 0 ∷ []) 1 speed)
append-IsWellFormed_example =
    append-IsWellFormed speed (pos 30 ∷ []) (3 ∷ 0 ∷ []) 1 speed-IsWellFormed one_more

-- A store with that signal.
abbrev pub one_channel : SignalStore
one_channel = record {
  heap = speed ∷ [];
  map = (codes "speed", 0) ∷ [];
  emitted = channel_added (codes "speed") ∷ [];
}

abbrev no_channel : SignalStore
no_channel = record { heap = speed ∷ []; map = []; emitted = [] }

no_channel-IsConsistent : IsConsistent no_channel
unfolding find
no_channel-IsConsistent = record { unique = tt; named = λ k p e. absurd cc }

pub one_channel-IsConsistent : IsConsistent one_channel
unfolding find add has insert_or_assign
one_channel-IsConsistent = add-IsConsistent (some 0) no_channel no_channel-IsConsistent

-- A trim that leaves texts with no blanks around.
abbrev untouched : QString → QString
untouched t = t

add-IsConsistent_example : IsConsistent (add (some 0) one_channel)
add-IsConsistent_example = add-IsConsistent (some 0) one_channel one_channel-IsConsistent

rename-grants_example :
    ((rename untouched (codes "speed") (codes "v") one_channel).1 ≡ true)
    × (true ≡ false → (rename untouched (codes "speed") (codes "v") one_channel).0 ≡ one_channel)
unfolding contains find eq_text has
rename-grants_example =
    rename-grants untouched (codes "speed") (codes "v") one_channel one_channel-IsConsistent

-- The store with its channel under another name.
abbrev renamed_store : SignalStore
renamed_store = (rename untouched (codes "speed") (codes "v") one_channel).0

rename_lem_example :
    (q : ℕ) × (get (codes "v") renamed_store ≡ some q)
    × (get_elem? renamed_store.heap q
        ≡ some (record speed { meta = record speed.meta { name = codes "v" } }))
    × (q ≢ 0)
    × (get_elem? renamed_store.heap 0 ≡ some speed)
    × (get (codes "speed") renamed_store ≡ none)
    × ((k : QString) → k ≢ codes "speed" → k ≢ codes "v" → get k renamed_store ≡ get k one_channel)
    × (renamed_store.emitted
        ≡ channel_added (codes "speed") ∷ channel_renamed (codes "speed") (codes "v") ∷ [])
unfolding contains find eq_text has
rename_lem_example =
    rename_lem untouched (codes "speed") (codes "v") one_channel {p = 0} {s = speed} refl refl refl
      speed-IsWellFormed

rename-IsConsistent_example :
    IsConsistent (rename untouched (codes "speed") (codes "v") one_channel).0
rename-IsConsistent_example =
    rename-IsConsistent untouched (codes "speed") (codes "v") one_channel one_channel-IsConsistent
