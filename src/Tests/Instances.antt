-- ===== src/Tests/Instances.antt =====
-- Concrete instances of what the code uses of others, with the laws that the theorems ask for: a
-- queue, an ADS client, a file, and Qt's texts for ASCII.
use scope_analyser.Prelude.{
  ℕ, ◌+◌, ◌-◌, ◌≤◌, ◌<◌, ◌≡◌, ◌≢◌, refl, Bool, true, false, ◌&&◌, ◌||◌, Option, none, some, List,
  [], ◌∷◌, ◌++◌, append-nil, append_assoc, arith, ◌==◌, leb, take, is_empty, map, if◌then◌else◌,
}
use scope_analyser.Prelude.Int.{ℤ, pos, negsuc}
use scope_analyser.Prelude.Text.{QString, codes, eq_text}
use scope_analyser.Recorder.Interfaces.{
  QueuedSample, AdsNotificationSpec, QueueOps, QueueLaws, ClientOps, ClientLaws, FileOps, FileLaws,
}
use scope_analyser.Ads.Interfaces.{TextOps}

-- A queue that is the list of its samples.
abbrev pub list_dequeue : List QueuedSample → Option (QueuedSample × List QueuedSample)
list_dequeue [] = none
list_dequeue (s ∷ r) = some (s, r)

abbrev pub list_queue : QueueOps (List QueuedSample)
list_queue = record {
  empty = [];
  items = λ x. x;
  enqueue = λ s x. (x ++ s ∷ [], true);
  try_dequeue = list_dequeue;
}

dequeue-none_list : (x : List QueuedSample) → list_dequeue x ≡ none → x ≡ []
dequeue-none_list [] e = refl
dequeue-none_list (s ∷ r) e = cc

dequeue-some_list :
    (x : List QueuedSample) (s : QueuedSample) (y : List QueuedSample)
    → list_dequeue x ≡ some (s, y)
    → x ≡ s ∷ y
dequeue-some_list [] s y e = cc
dequeue-some_list (t ∷ r) s y e = cc

pub list_queue-QueueLaws : QueueLaws list_queue
list_queue-QueueLaws = record {
  items-empty = refl;
  items-enqueue = λ s x. refl;
  dequeue-none = dequeue-none_list;
  dequeue-some = dequeue-some_list;
}

-- A client that is the list of its handles; it refuses a subscription of the index group 0.
abbrev pub fresh : List ℕ → ℕ
fresh [] = 1
fresh (h ∷ r) = h + fresh r

abbrev pub is_live : List ℕ → ℕ → Bool
is_live [] h = false
is_live (k ∷ r) h = h == k || is_live r h

abbrev pub without : ℕ → List ℕ → List ℕ
without k [] = []
without k (h ∷ r) = let rest = without k r in if h == k then rest else h ∷ rest

abbrev pub list_client : ClientOps (List ℕ)
list_client = record {
  add_notification = λ spec x. if spec.index_group == 0 then (x, 0) else (fresh x ∷ x, fresh x);
  remove_notification = without;
  live = is_live;
}

fresh_pos : (x : List ℕ) → 1 ≤ fresh x
fresh_pos [] = omega arith
fresh_pos (h ∷ r) = omega (arith, fresh_pos r)

live-lt-fresh : (x : List ℕ) (h : ℕ) → is_live x h ≡ true → h < fresh x
live-lt-fresh [] h e = absurd cc
live-lt-fresh (k ∷ r) h e = ground (arith, live-lt-fresh r h, fresh_pos r)

fresh_unused : (x : List ℕ) → is_live x (fresh x) ≡ false
fresh_unused x = ground (arith, live-lt-fresh x (fresh x))

live-add_list :
    (spec : AdsNotificationSpec) (x : List ℕ) (h : ℕ)
    → is_live (list_client.add_notification spec x).0 h ≡ (
        if (list_client.add_notification spec x).1 == 0
        then is_live x h
        else h == (list_client.add_notification spec x).1 || is_live x h)
live-add_list spec x h = ground (arith, fresh_pos x)

live-fresh_list :
    (spec : AdsNotificationSpec) (x : List ℕ)
    → (list_client.add_notification spec x).1 ≢ 0
    → is_live x (list_client.add_notification spec x).1 ≡ false
live-fresh_list spec x ne = ground (arith, fresh_unused x)

live-without :
    (k : ℕ) (x : List ℕ) (h : ℕ) → is_live (without k x) h ≡ (if h == k then false else is_live x h)
live-without k [] h = ground arith
live-without k (j ∷ r) h = ground (arith, live-without k r h)

pub list_client-ClientLaws : ClientLaws list_client
list_client-ClientLaws = record {
  live-add = live-add_list;
  live-fresh = live-fresh_list;
  live-remove = live-without;
}

-- A file that is the log of its writes; the empty path cannot be opened.
abbrev pub Log : Type 0
Log = List (QString × List ℤ)

abbrev pub log_rows : QString → Log → List ℤ
log_rows k [] = []
log_rows k ((name, ts) ∷ r) = (if eq_text name k then ts else []) ++ log_rows k r

abbrev pub log_file : FileOps Log
log_file = record {
  create = λ path. if is_empty path then none else some [];
  add_channel = λ m x. (x, true);
  append_samples = λ name ts vs n x. (x ++ (name, take n ts) ∷ [], true);
  flush = λ x. x;
  rows = log_rows;
}

log_rows-append :
    (name k : QString) (ts : List ℤ) (x : Log)
    → log_rows k (x ++ (name, ts) ∷ [])
      ≡ (if eq_text name k then log_rows k x ++ ts else log_rows k x)
log_rows-append name k ts [] = ground (arith, append-nil ts)
log_rows-append name k ts ((n, us) ∷ r) =
    ground (arith, log_rows-append name k ts r, append_assoc us (log_rows k r) ts)

log_rows-appended :
    (name k : QString) (ts : List ℤ) (vs : List ℕ) (count : ℕ) (x : Log)
    → log_rows k (x ++ (name, take count ts) ∷ [])
      ≡ (if eq_text name k && true then log_rows k x ++ take count ts else log_rows k x)
log_rows-appended name k ts vs count x = ground (arith, log_rows-append name k (take count ts) x)

pub log_file-FileLaws : FileLaws log_file
log_file-FileLaws = record { rows-append = log_rows-appended; rows-flush = λ k x. refl }

-- Texts of ASCII, with one-digit numbers.
abbrev upper : ℕ → ℕ
upper c = if leb 97 c && leb c 122 then c - 32 else c

abbrev digit : ℤ → QString
digit (pos n) = (48 + n) ∷ []
digit (negsuc n) = 45 ∷ (49 + n) ∷ []

abbrev of_digit : QString → Option ℤ
of_digit (c ∷ []) = if leb 48 c && leb c 57 then some (pos (c - 48)) else none
of_digit _ = none

abbrev push_first : ℕ → List QString → List QString
push_first c [] = (c ∷ []) ∷ []
push_first c (w ∷ r) = (c ∷ w) ∷ r

abbrev split_at : ℕ → QString → List QString
split_at sep [] = [] ∷ []
split_at sep (c ∷ r) =
    let rest = split_at sep r in if c == sep then [] ∷ rest else push_first c rest

-- What follows a prefix.
abbrev after_prefix : QString → QString → Option QString
after_prefix [] s = some s
after_prefix (c ∷ p) [] = none
after_prefix (c ∷ p) (d ∷ s) = let rest = after_prefix p s in if c == d then rest else none

-- "bounds] OF element"
abbrev split_declaration : List QString → Option (QString × QString)
split_declaration (bounds ∷ rest ∷ []) = elim (after_prefix (codes " OF ") rest) [
  | none ↦ none
  | some element ↦ some (bounds, element)
]
split_declaration _ = none

-- "ARRAY [bounds] OF element"
abbrev ascii_array : QString → Option (QString × QString)
ascii_array s = elim (after_prefix (codes "ARRAY [") s) [
  | none ↦ none
  | some rest ↦ split_declaration (split_at b']' rest)
]

-- "lower..upper"
abbrev two_bounds : List QString → Option (QString × QString)
two_bounds (lower ∷ [] ∷ upper ∷ []) = some (lower, upper)
two_bounds _ = none

abbrev pub ascii : TextOps
ascii = record {
  to_upper = map upper;
  trimmed = λ s. s;
  number = digit;
  to_long_long = of_digit;
  split = split_at;
  match_array = ascii_array;
  match_dim = λ s. two_bounds (split_at b'.' s);
}
