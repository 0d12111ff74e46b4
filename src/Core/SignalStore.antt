-- ===== src/Core/SignalStore.antt =====
-- `SignalStore` (core/include/scope/core/SignalStore.h, core/src/SignalStore.cpp). A shared_ptr is
-- an index into the heap of signals, so that two holders of one signal see the same one; the map is
-- an association list, in some order; the Qt signals emitted stand in `emitted`, in order. A call
-- under the mutex is one step. `QString::trimmed` is Qt's, a parameter.
pub mod Laws
pub mod Consistency
use scope_analyser.Prelude.{
  ℕ, ◌+◌, Bool, true, false, ◌||◌, Option, none, some, List, [], ◌∷◌, ◌++◌, map, ltb, length,
  get_elem?, is_empty, if◌then◌else◌,
}
use scope_analyser.Prelude.Text.{QString, eq_text}
use scope_analyser.Core.Signal.{Signal, Meta, new, append, snapshot_for_read}
use scope_analyser.Prelude.Dict.{Dict, find, has, insert_or_assign, erase, keys}

pub data Event : Type 0 where
  channel_added channel_removed channel_data_changed : QString → Event
  channel_renamed : QString → QString → Event

pub record SignalStore : Type 0 where
  pub heap : List Signal
  pub map : Dict ℕ
  pub emitted : List Event

abbrev pub emit : List Event → SignalStore → SignalStore
emit es st = record st { emitted = st.emitted ++ es }

-- `std::make_shared<Signal>`: the new pointer is the length of the heap.
abbrev pub allocate : Signal → SignalStore → SignalStore
allocate s st = record st { heap = st.heap ++ s ∷ [] }

add_signal : ℕ → Signal → SignalStore → SignalStore
add_signal p s st =
    let name = s.meta.name in
    let replaced = has name st.map in
    let stored = record st { map = insert_or_assign name p st.map } in
    emit ((if replaced then channel_removed name ∷ [] else []) ++ channel_added name ∷ []) stored

-- `add`; `none` is the null pointer.
unfoldable pub add : Option ℕ → SignalStore → SignalStore
unfolding add_signal has
add none st = st
add (some p) st = elim (get_elem? st.heap p) [ none ↦ st | some s ↦ add_signal p s st ]

-- The clone that `rename` stores.
unfoldable pub cloned : QString → Signal → Signal
cloned to s =
    let view = snapshot_for_read s in
    let copy = new (record s.meta { name = to }) in
    if ltb 0 view.count then append view.timestamps view.values view.count copy else copy

rename_found : QString → QString → Signal → SignalStore → SignalStore
rename_found from to s st =
    emit (channel_renamed from to ∷ []) (record (allocate (cloned to s) st) {
      map = insert_or_assign to (length st.heap) (erase from st.map);
    })

module _ (trimmed : QString → QString) where
  unfoldable pub rename : QString → QString → SignalStore → SignalStore × Bool
  unfolding rename_found has
  rename from to st =
      if eq_text from to || is_empty (trimmed to) then (st, false) else elim (find from st.map) [
        | none ↦ (st, false)
        | some p ↦ if has to st.map then (st, false) else elim (get_elem? st.heap p) [
          | none ↦ (st, false)
          | some s ↦ (rename_found from to s st, true)
        ]
      ]

unfoldable pub remove : QString → SignalStore → SignalStore
unfolding has
remove name st =
    let existed = has name st.map in
    emit (if existed then channel_removed name ∷ [] else []) (record st { map = erase name st.map })

unfoldable pub clear : SignalStore → SignalStore
clear st = emit (map channel_removed (keys st.map)) (record st { map = [] })

unfoldable pub get : QString → SignalStore → Option ℕ
get name st = find name st.map

unfoldable pub contains : QString → SignalStore → Bool
contains name st = has name st.map

unfoldable pub channel_names : SignalStore → List QString
channel_names st = keys st.map

unfoldable pub size : SignalStore → ℕ
size st = length st.map

unfoldable pub notify_data_changed : QString → SignalStore → SignalStore
notify_data_changed name st = emit (channel_data_changed name ∷ []) st
