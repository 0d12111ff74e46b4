-- ===== src/Recorder/Interfaces.antt =====
-- What the recorder uses of others: the lock-free queue (moodycamel::ConcurrentQueue, third-party)
-- and the ADS client (IAdsClient, core/include/scope/core/IAdsClient.h), each as its operations
-- and their laws.
use scope_analyser.Prelude.{
  ℕ, ◌≡◌, ◌≢◌, Bool, false, Option, none, some, List, [], ◌∷◌, ◌++◌, ◌==◌, if◌then◌else◌, ◌||◌,
  ◌&&◌, take,
}
use scope_analyser.Prelude.Text.{QString, eq_text}
use scope_analyser.Core.Signal.{Meta}
use scope_analyser.Prelude.Int.{ℤ}

-- `NotifyChannel::QueuedSample`
pub record QueuedSample : Type 0 where
  pub ts : ℤ
  pub value : List ℕ

-- `AdsSample`: one notification, its payload as bytes.
pub record AdsSample : Type 0 where
  pub plc_timestamp_ns : ℤ
  pub host_timestamp_ns : ℤ
  pub payload : List ℕ

-- `AdsNotificationSpec`
pub record AdsNotificationSpec : Type 0 where
  pub index_group : ℕ
  pub index_offset : ℕ
  pub length_bytes : ℕ
  pub cycle_time_us : ℕ
  pub max_age_us : ℕ

pub record QueueOps (Queue : Type 0) : Type 0 where
  pub empty : Queue
  pub items : Queue → List QueuedSample
  pub enqueue : QueuedSample → Queue → Queue × Bool
  pub try_dequeue : Queue → Option (QueuedSample × Queue)

-- First in, first out for the one producer; a refused sample (out of memory) leaves the queue.
pub record QueueLaws {Queue : Type 0} (q : QueueOps Queue) : Type 0 where
  pub items-empty : q.items q.empty ≡ []
  pub items-enqueue :
      (s : QueuedSample) (x : Queue)
      → q.items (q.enqueue s x).0 ≡ (if (q.enqueue s x).1 then q.items x ++ s ∷ [] else q.items x)
  pub dequeue-none : (x : Queue) → q.try_dequeue x ≡ none → q.items x ≡ []
  pub dequeue-some :
      (x : Queue) (s : QueuedSample) (y : Queue)
      → q.try_dequeue x ≡ some (s, y)
      → q.items x ≡ s ∷ q.items y

pub record ClientOps (Client : Type 0) : Type 0 where
  pub add_notification : AdsNotificationSpec → Client → Client × ℕ
  pub remove_notification : ℕ → Client → Client
  -- Whether a handle is subscribed.
  pub live : Client → ℕ → Bool

-- A granted handle is not 0 and was not in use; 0 reports a failure that subscribed nothing.
pub record ClientLaws {Client : Type 0} (c : ClientOps Client) : Type 0 where
  pub live-add :
      (spec : AdsNotificationSpec) (x : Client) (h : ℕ)
      → c.live (c.add_notification spec x).0 h ≡ (
          if (c.add_notification spec x).1 == 0
          then c.live x h
          else h == (c.add_notification spec x).1 || c.live x h)
  pub live-fresh :
      (spec : AdsNotificationSpec) (x : Client)
      → (c.add_notification spec x).1 ≢ 0
      → c.live x (c.add_notification spec x).1 ≡ false
  pub live-remove :
      (k : ℕ) (x : Client) (h : ℕ)
      → c.live (c.remove_notification k x) h ≡ (if h == k then false else c.live x h)

-- `Hdf5Session` (core/include/scope/core/Hdf5Session.h), which writes through the HDF5 library.
-- `rows` is what has been written under a channel's name: its timestamps, in order.
pub record FileOps (File : Type 0) : Type 0 where
  pub create : QString → Option File
  pub add_channel : Meta → File → File × Bool
  pub append_samples : QString → List ℤ → List ℕ → ℕ → File → File × Bool
  pub flush : File → File
  pub rows : QString → File → List ℤ

-- An append that succeeds adds the first `count` timestamps under its name and no other; one that
-- fails, registering a channel and flushing add no rows.
pub record FileLaws {File : Type 0} (f : FileOps File) : Type 0 where
  pub rows-append :
      (name k : QString) (ts : List ℤ) (vs : List ℕ) (count : ℕ) (x : File)
      → f.rows k (f.append_samples name ts vs count x).0 ≡ (
          if eq_text name k && (f.append_samples name ts vs count x).1
          then f.rows k x ++ take count ts
          else f.rows k x)
  pub rows-flush : (k : QString) (x : File) → f.rows k (f.flush x) ≡ f.rows k x
