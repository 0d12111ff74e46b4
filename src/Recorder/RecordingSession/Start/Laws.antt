-- ===== src/Recorder/RecordingSession/Start/Laws.antt =====
-- What `start` of RecordingSession.cpp leaves when it succeeds and when a channel cannot be armed.
use mathlib.Core.Bool.{false≢true, true≢false}
use scope_analyser.Prelude.{
  ℕ, ◌+◌, length, length-append, ◌⊎◌, ◌≡◌, ◌≢◌, refl, ◌∙◌, ap, sym, Bool, true, false, ◌&&◌, ◌||◌,
  none, some, List, [], ◌∷◌, ◌++◌, arith, Bool-cases, Option-cases, inl, inr, All, All-append,
}
use scope_analyser.Prelude.Text.{QString}
use scope_analyser.Recorder.Interfaces.{QueueOps, ClientOps, ClientLaws, FileOps}
use scope_analyser.Recorder.NotifyChannel.{NotifyChannel, arm, spec_of}
use scope_analyser.Recorder.RecordingSession.{Slot, Session, stop}
use scope_analyser.Recorder.RecordingSession.Start.{register_channel, arm_slot, start_slots, start}
use scope_analyser.Recorder.RecordingSession.Stopping.{handle_of, holds, Disarmed, stop_lem}

-- Every slot that has a channel is armed.
abbrev pub Armed : {Queue : Type 0} → List (Slot Queue) → Type 0
Armed = All (λ s. (s.notify ≡ none) ⊎ (handle_of s.notify ≢ 0))

holds-append :
    {Queue : Type 0} (a b : List (Slot Queue)) (h : ℕ) → holds (a ++ b) h ≡ (holds a h || holds b h)
holds-append [] b h = refl
holds-append (s ∷ a) b h = ground (arith, holds-append a b h)

holds-Disarmed : {Queue : Type 0} (l : List (Slot Queue)) (h : ℕ) → Disarmed l → holds l h ≡ false
holds-Disarmed [] h d = refl
holds-Disarmed (s ∷ r) h d = ground (arith, holds-Disarmed r h d.1)

module _ {Queue Client File : Type 0} (q : QueueOps Queue) (api : ClientOps Client)
    (files : FileOps File) where
  arm_slot-Armed :
      (s : Slot Queue) (x : Client)
      → (arm_slot q api files s x).2 ≡ true
      → Armed ((arm_slot q api files s x).0 ∷ [])
  unfolding arm_slot arm
  arm_slot-Armed s x h = elim (Option-cases s.notify) [
    | inl no_channel ↦ (inl (ground arith), tt)
    | inr (c, channel) ↦ (inr (ground arith), tt)
  ]

  -- The next round of the loop, or its end.
  pub start_slots-next :
      (done : List (Slot Queue)) (slot : Slot Queue) (r : List (Slot Queue)) (f : File)
      (st : Session Queue Client File)
      → (arm_slot q api files slot st.client).2 ≡ true
      → start_slots q api files done (slot ∷ r) f st
        ≡ start_slots q api files
            (done ++ (arm_slot q api files slot st.client).0 ∷ [])
            r
            (register_channel q api files slot.signal st.store f)
            (record st { client = (arm_slot q api files slot st.client).1 })
  unfolding start_slots
  start_slots-next done slot r f st h = rw (h, start_slots)

  -- The session that `start` stops when a slot cannot be armed.
  abbrev failing :
      List (Slot Queue)
      → Slot Queue
      → List (Slot Queue)
      → File
      → Session Queue Client File
      → Session Queue Client File
  failing done slot r f st = record st {
    client = (arm_slot q api files slot st.client).1;
    hdf5 = some (register_channel q api files slot.signal st.store f);
    slots = done ++ (arm_slot q api files slot st.client).0 ∷ r;
  }

  pub start_slots-stop :
      (done : List (Slot Queue)) (slot : Slot Queue) (r : List (Slot Queue)) (f : File)
      (st : Session Queue Client File)
      → (arm_slot q api files slot st.client).2 ≡ false
      → start_slots q api files done (slot ∷ r) f st
        ≡ (stop q api files (failing done slot r f st), false)
  unfolding start_slots
  start_slots-stop done slot r f st h = rw (h, start_slots)

  start_slots-Armed :
      (done todo : List (Slot Queue)) (f : File) (st : Session Queue Client File)
      → Armed done
      → (start_slots q api files done todo f st).1 ≡ true
      → Armed (start_slots q api files done todo f st).0.slots
        × ((start_slots q api files done todo f st).0.running ≡ true)
        × (length (start_slots q api files done todo f st).0.slots ≡ length done + length todo)
  start_slots-Armed done [] f st a h = unfold start_slots in (a, refl, omega arith)
  start_slots-Armed done (slot ∷ r) f st a h =
      elim (Bool-cases (arm_slot q api files slot st.client).2) [
        | inr failed ↦ absurd (stopped failed h)
        | inl armed ↦
            let next = start_slots-next done slot r f st armed in
            let (x, y, z) =
              start_slots-Armed (done ++ (arm_slot q api files slot st.client).0 ∷ []) r
                (register_channel q api files slot.signal st.store f)
                (record st { client = (arm_slot q api files slot st.client).1 })
                (All-append _ _ _ a (arm_slot-Armed slot st.client armed))
                (sym (ap (λ p. p.1) next) ∙ h) in
            rw next (
              x,
              y,
              omega (arith, z, length-append done ((arm_slot q api files slot st.client).0 ∷ [])),
            )
      ]
    where
      stopped :
          (arm_slot q api files slot st.client).2 ≡ false
          → (start_slots q api files done (slot ∷ r) f st).1 ≡ true
          → ⊥
      stopped failed e =
          false≢true (sym (ap (λ p. p.1) (start_slots-stop done slot r f st failed)) ∙ e)

  start-running :
      (path : QString) (st : Session Queue Client File)
      → st.running ≡ true
      → start q api files path st ≡ (st, true)
  unfolding start
  start-running path st h = rw (h, start)

  start-unopened :
      (path : QString) (st : Session Queue Client File)
      → st.running ≡ false
      → files.create path ≡ none
      → start q api files path st ≡ (record st { hdf5 = none }, false)
  unfolding start
  start-unopened path st h e = ground arith

  start-opened :
      (path : QString) (st : Session Queue Client File) (f : File)
      → st.running ≡ false
      → files.create path ≡ some f
      → start q api files path st ≡ start_slots q api files [] st.slots f st
  unfolding start
  start-opened path st f h e = ground arith

  module _ (laws : ClientLaws api) where
    -- Arming a slot adds its subscription, if any, which was not there before.
    arm_slot-live :
        (s : Slot Queue) (x : Client) (h : ℕ)
        → handle_of s.notify ≡ 0
        → (api.live (arm_slot q api files s x).1 h
            ≡ (holds ((arm_slot q api files s x).0 ∷ []) h || api.live x h))
          × ((holds ((arm_slot q api files s x).0 ∷ []) h && api.live x h) ≡ false)
    unfolding arm_slot arm
    arm_slot-live s x h e = elim (Option-cases s.notify) [
      | inl no_channel ↦ (ground arith, ground arith)
      | inr (c, channel) ↦ arm-live c channel
    ]
      where
        arm-live :
            (c : NotifyChannel Queue)
            → s.notify ≡ some c
            → (api.live (arm_slot q api files s x).1 h
                ≡ (holds ((arm_slot q api files s x).0 ∷ []) h || api.live x h))
              × ((holds ((arm_slot q api files s x).0 ∷ []) h && api.live x h) ≡ false)
        arm-live c channel =
            let added = laws.live-add (spec_of api c) x h in
            let fresh = laws.live-fresh (spec_of api c) x in
            (ground (arith, added), ground (arith, fresh))

    start_slots-refused :
        (done todo : List (Slot Queue)) (f : File) (st : Session Queue Client File) (h : ℕ)
        (before : Bool)
        → Disarmed todo
        → api.live st.client h ≡ (holds done h || before)
        → (holds done h && before) ≡ false
        → (start_slots q api files done todo f st).1 ≡ false
        → Disarmed (start_slots q api files done todo f st).0.slots
          × ((start_slots q api files done todo f st).0.running ≡ false)
          × (api.live (start_slots q api files done todo f st).0.client h ≡ before)
    start_slots-refused done [] f st h b d l n e = absurd (true≢false (unfold start_slots in e))
    start_slots-refused done (slot ∷ r) f st h b d l n e =
        let slot' = (arm_slot q api files slot st.client).0 in
        let tracked = arm_slot-live slot st.client h d.0 in
        elim (Bool-cases (arm_slot q api files slot st.client).2) [
          | inr failed ↦
              let stopped = stop_lem q api files laws (failing done slot r f st) h in
              rw (start_slots-stop done slot r f st failed) (
                stopped.0,
                stopped.1,
                stopped.2
                    ∙ ground (
                      arith,
                      holds-append done (slot' ∷ r) h,
                      holds-Disarmed r h d.1,
                      tracked.0,
                      tracked.1,
                    ),
              )
          | inl armed ↦ rw (start_slots-next done slot r f st armed) (
              start_slots-refused (done ++ slot' ∷ []) r
                (register_channel q api files slot.signal st.store f)
                (record st { client = (arm_slot q api files slot st.client).1 }) h b d.1
                (ground (arith, holds-append done (slot' ∷ []) h, tracked.0, tracked.1))
                (ground (arith, holds-append done (slot' ∷ []) h, tracked.0, tracked.1))
                (sym (ap (λ p. p.1) (start_slots-next done slot r f st armed)) ∙ e))
        ]

    -- With disarmed slots, a start that fails leaves every slot disarmed, the session not running,
    -- and the client's subscriptions as they were.
    pub start_refused :
        (path : QString) (st : Session Queue Client File) (h : ℕ)
        → Disarmed st.slots
        → (start q api files path st).1 ≡ false
        → Disarmed (start q api files path st).0.slots
          × ((start q api files path st).0.running ≡ false)
          × (api.live (start q api files path st).0.client h ≡ api.live st.client h)
    start_refused path st h d e = elim (Bool-cases st.running) [
      | inl running ↦ absurd (true≢false (sym (ap (λ p. p.1) (start-running path st running)) ∙ e))
      | inr idle ↦ elim (Option-cases (files.create path)) [
        | inl unopened ↦ rw (start-unopened path st idle unopened) (d, idle, refl)
        | inr (f, opened) ↦ rw (start-opened path st f idle opened) (
            start_slots-refused [] st.slots f st h (api.live st.client h) d refl refl
              (sym (ap (λ p. p.1) (start-opened path st f idle opened)) ∙ e))
      ]
    ]

  -- A start of an idle session that succeeds leaves every slot that has a channel armed, the session
  -- running, and as many slots as before.
  pub start_granted :
      (path : QString) (st : Session Queue Client File)
      → st.running ≡ false
      → (start q api files path st).1 ≡ true
      → Armed (start q api files path st).0.slots
        × ((start q api files path st).0.running ≡ true)
        × (length (start q api files path st).0.slots ≡ length st.slots)
  start_granted path st idle e = elim (Option-cases (files.create path)) [
    | inl unopened ↦
        absurd (false≢true (sym (ap (λ p. p.1) (start-unopened path st idle unopened)) ∙ e))
    | inr (f, opened) ↦
        let (a, r, n) =
          start_slots-Armed [] st.slots f st tt
            (sym (ap (λ p. p.1) (start-opened path st f idle opened)) ∙ e) in
        rw (start-opened path st f idle opened) (a, r, omega (arith, n))
  ]
