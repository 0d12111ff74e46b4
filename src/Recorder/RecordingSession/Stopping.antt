-- ===== src/Recorder/RecordingSession/Stopping.antt =====
-- What `stop` of RecordingSession.cpp leaves.
use scope_analyser.Prelude.{
  ℕ, ◌⊎◌, ◌≡◌, refl, ◌∙◌, ap, sym, Bool, true, false, not, ◌&&◌, ◌||◌, Option, none, some, List, [],
  ◌∷◌, arith, ◌==◌, get_elem?, if◌then◌else◌, Bool-cases, Option-cases, inl, inr, All, is_empty,
}
use scope_analyser.Core.Signal.{Signal}
use scope_analyser.Recorder.Interfaces.{QueueOps, ClientOps, ClientLaws, FileOps}
use scope_analyser.Recorder.NotifyChannel.{NotifyChannel, disarm, drain_to}
use scope_analyser.Recorder.RecordingSession.{
  max_batch, Slot, Session, Stats, disarm_slot, disarm_all, quiet, flush_file, stop, on_drain_tick,
  tick_slots, tick_slot, drain_slot,
}

-- The handle under which a slot is subscribed; 0 is none.
abbrev pub handle_of : {Queue : Type 0} → Option (NotifyChannel Queue) → ℕ
handle_of none = 0
handle_of (some c) = c.handle

-- Whether some slot holds the subscription `h`.
abbrev pub holds : {Queue : Type 0} → List (Slot Queue) → ℕ → Bool
holds [] h = false
holds (s ∷ r) h = (not (handle_of s.notify == 0) && h == handle_of s.notify) || holds r h

abbrev pub Disarmed : {Queue : Type 0} → List (Slot Queue) → Type 0
Disarmed = All (λ s. handle_of s.notify ≡ 0)

idle_slots :
    {Queue : Type 0} (l : List (Slot Queue)) (h : ℕ)
    → is_empty l ≡ true
    → Disarmed l × (holds l h ≡ false)
idle_slots [] h e = (tt, refl)
idle_slots (s ∷ r) h e = cc

module _ {Queue Client File : Type 0} (q : QueueOps Queue) (api : ClientOps Client)
    (files : FileOps File) where
  disarm_slot-handle :
      (s : Slot Queue) (x : Client) → handle_of (disarm_slot q api files s x).0.notify ≡ 0
  unfolding disarm_slot disarm
  disarm_slot-handle s x = ground arith

  disarm_all-Disarmed :
      (l : List (Slot Queue)) (x : Client) → Disarmed (disarm_all q api files l x).0
  unfolding disarm_all
  disarm_all-Disarmed [] x = tt
  disarm_all-Disarmed (s ∷ r) x =
      (disarm_slot-handle s x, disarm_all-Disarmed r (disarm_slot q api files s x).1)

  drain_to-handle :
      (c : NotifyChannel Queue) (s : Signal) → (drain_to q max_batch c s).0.handle ≡ c.handle
  unfolding drain_to
  drain_to-handle c s = refl

  -- A slot is passed over, or its channel is drained into its signal.
  pub tick_slot-cases :
      (slot : Slot Queue) (stats : Stats) (st : Session Queue Client File)
      → (tick_slot q api files slot stats st ≡ (slot, stats, st))
        ⊎ ((c : NotifyChannel Queue) × (p : ℕ) × (s : Signal) × (slot.notify ≡ some c)
            × (slot.signal ≡ some p)
            × (get_elem? st.store.heap p ≡ some s)
            × (tick_slot q api files slot stats st ≡ drain_slot q api files c p s slot stats st))
  unfolding tick_slot
  tick_slot-cases slot stats st = elim (Option-cases slot.notify) [
    | inl no_channel ↦ inl (ground arith)
    | inr (c, channel) ↦ elim (Option-cases slot.signal) [
      | inl no_signal ↦ inl (ground arith)
      | inr (p, signal) ↦ elim (Option-cases (get_elem? st.store.heap p)) [
        | inl gone ↦ inl (ground arith)
        | inr (s, live) ↦ inr (c, p, s, channel, signal, live, ground arith)
      ]
    ]
  ]

  -- A tick leaves the subscriptions as they are.
  drain_slot-keeps :
      (c : NotifyChannel Queue) (p : ℕ) (s : Signal) (slot : Slot Queue) (stats : Stats)
      (st : Session Queue Client File)
      → (handle_of (drain_slot q api files c p s slot stats st).0.notify ≡ c.handle)
        × ((drain_slot q api files c p s slot stats st).2.client ≡ st.client)
        × ((drain_slot q api files c p s slot stats st).2.running ≡ st.running)
  unfolding drain_slot
  drain_slot-keeps c p s slot stats st = ground (arith, drain_to-handle c s)

  tick_slot-keeps :
      (slot : Slot Queue) (stats : Stats) (st : Session Queue Client File)
      → (handle_of (tick_slot q api files slot stats st).0.notify ≡ handle_of slot.notify)
        × ((tick_slot q api files slot stats st).2.client ≡ st.client)
        × ((tick_slot q api files slot stats st).2.running ≡ st.running)
  tick_slot-keeps slot stats st = elim (tick_slot-cases slot stats st) [
    | inl passed ↦ rw passed (refl, refl, refl)
    | inr (c, p, s, channel, _, _, drained) ↦
        let (h, k, r) = drain_slot-keeps c p s slot stats st in
        rw drained (h ∙ sym (ap handle_of channel), k, r)
  ]

  tick_slots-keeps :
      (l : List (Slot Queue)) (stats : Stats) (st : Session Queue Client File)
      → (Disarmed l → Disarmed (tick_slots q api files l stats st).0)
        × ((tick_slots q api files l stats st).2.client ≡ st.client)
        × ((tick_slots q api files l stats st).2.running ≡ st.running)
  unfolding tick_slots
  tick_slots-keeps [] stats st = (λ d. d, refl, refl)
  tick_slots-keeps (s ∷ r) stats st =
      let (slot', stats', st') = tick_slot q api files s stats st in
      let (h, k, n) = tick_slot-keeps s stats st in
      let (h', k', n') = tick_slots-keeps r stats' st' in (λ d. (h ∙ d.0, h' d.1), k' ∙ k, n' ∙ n)

  on_drain_tick-keeps :
      (st : Session Queue Client File)
      → (Disarmed st.slots → Disarmed (on_drain_tick q api files st).slots)
        × ((on_drain_tick q api files st).client ≡ st.client)
        × ((on_drain_tick q api files st).running ≡ st.running)
  unfolding on_drain_tick
  on_drain_tick-keeps st = tick_slots-keeps st.slots _ st

  stop-idle :
      (st : Session Queue Client File)
      → (not st.running && is_empty st.slots) ≡ true
      → stop q api files st ≡ st
  unfolding stop
  stop-idle st h = rw (h, stop)

  -- The session that the final drain of `stop` starts from.
  abbrev pub stopping : Session Queue Client File → Session Queue Client File
  stopping st = record (quiet q api files st) { hdf5 = flush_file q api files st.hdf5 }

  pub stop-active :
      (st : Session Queue Client File)
      → (not st.running && is_empty st.slots) ≡ false
      → stop q api files st ≡ record (on_drain_tick q api files (stopping st)) { hdf5 = none }
  unfolding stop
  stop-active st h = rw (h, stop)

  module _ (laws : ClientLaws api) where
    disarm_slot-live :
        (s : Slot Queue) (x : Client) (h : ℕ)
        → api.live (disarm_slot q api files s x).1 h
          ≡ (if holds (s ∷ []) h then false else api.live x h)
    unfolding disarm_slot disarm
    disarm_slot-live s x h = ground (arith, laws.live-remove (handle_of s.notify) x h)

    disarm_all-live :
        (l : List (Slot Queue)) (x : Client) (h : ℕ)
        → api.live (disarm_all q api files l x).1 h ≡ (if holds l h then false else api.live x h)
    unfolding disarm_all
    disarm_all-live [] x h = refl
    disarm_all-live (s ∷ r) x h =
        ground (arith, disarm_slot-live s x h, disarm_all-live r (disarm_slot q api files s x).1 h)

    -- `stop` leaves every slot disarmed and the session not running, and it removes exactly the
    -- subscriptions that the slots held from the client.
    pub stop_lem :
        (st : Session Queue Client File) (h : ℕ)
        → Disarmed (stop q api files st).slots
          × ((stop q api files st).running ≡ false)
          × (api.live (stop q api files st).client h
              ≡ (if holds st.slots h then false else api.live st.client h))
    unfolding quiet
    stop_lem st h = elim (Bool-cases (not st.running && is_empty st.slots)) [
      | inl idle ↦ rw (stop-idle st idle) (
        (idle_slots st.slots h (ground arith)).0,
        ground arith,
        rw (idle_slots st.slots h (ground arith)).1,
      )
      | inr active ↦ rw (stop-active st active) (
        (on_drain_tick-keeps (stopping st)).0 (disarm_all-Disarmed st.slots st.client),
        (on_drain_tick-keeps (stopping st)).2,
        ap (λ x. api.live x h) (on_drain_tick-keeps (stopping st)).1
            ∙ disarm_all-live st.slots st.client h,
      )
    ]
