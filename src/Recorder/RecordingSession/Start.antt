-- ===== src/Recorder/RecordingSession/Start.antt =====
-- `start` of RecordingSession.cpp.
pub mod Laws
use scope_analyser.Prelude.{
  ℕ, ◌+◌, length, ◌⊎◌, ◌≡◌, ◌≢◌, refl, ◌∙◌, ap, sym, Bool, true, false, not, ◌&&◌, ◌||◌, Option,
  none, some, List, [], ◌∷◌, ◌++◌, arith, ◌==◌, get_elem?, if◌then◌else◌, Bool-cases, inl, inr, All,
  is_empty,
}
use scope_analyser.Prelude.Text.{QString}
use scope_analyser.Core.SignalStore.{SignalStore}
use scope_analyser.Recorder.Interfaces.{QueueOps, ClientOps, ClientLaws, FileOps}
use scope_analyser.Recorder.NotifyChannel.{NotifyChannel, arm}
use scope_analyser.Recorder.RecordingSession.{Slot, Session, stop}
use scope_analyser.Recorder.RecordingSession.Stopping.{handle_of, Disarmed, stop_lem}

module _ {Queue Client File : Type 0} (q : QueueOps Queue) (api : ClientOps Client)
    (files : FileOps File) where
  -- `hdf5_->addChannel(s.signal->meta())`; a failure is only logged.
  pub register_channel : Option ℕ → SignalStore → File → File
  register_channel none store f = f
  register_channel (some p) store f = elim (get_elem? store.heap p) [
    | none ↦ f
    | some s ↦ (files.add_channel s.meta f).0
  ]

  pub arm_slot : Slot Queue → Client → Slot Queue × Client × Bool
  arm_slot s x = elim s.notify [
    | none ↦ (s, x, true)
    | some c ↦ (record s { notify = some (arm api c x).0 }, (arm api c x).1, (arm api c x).2)
  ]

  -- The loop over the slots: those before are done. A channel that cannot be armed stops all.
  pub start_slots :
      List (Slot Queue)
      → List (Slot Queue)
      → File
      → Session Queue Client File
      → Session Queue Client File × Bool
  unfolding register_channel arm_slot
  start_slots done [] f st =
      (record st { hdf5 = some f; slots = done; running = true; ticking = true }, true)
  start_slots done (slot ∷ r) f st =
      let f' = register_channel slot.signal st.store f in
      let (slot', client', armed) = arm_slot slot st.client in
      let next = start_slots (done ++ slot' ∷ []) r f' (record st { client = client' }) in
      if armed then next else (
        stop q api files
            (record st { client = client'; hdf5 = some f'; slots = done ++ slot' ∷ r }),
        false,
      )

  unfoldable pub start : QString → Session Queue Client File → Session Queue Client File × Bool
  unfolding start_slots
  start path st = if st.running then (st, true) else elim (files.create path) [
    | none ↦ (record st { hdf5 = none }, false)
    | some f ↦ start_slots [] st.slots f st
  ]
