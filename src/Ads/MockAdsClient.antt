-- ===== src/Ads/MockAdsClient.antt =====
-- The synthetic client (`MockAdsClient`, ads/src/MockAdsClient.cpp): its catalogue, the resolution of
-- names and the table of subscriptions. The generators are named, not evaluated, and a worker
-- thread is its subscription: it runs from the one's addition to its removal.
pub mod Laws
use scope_analyser.Prelude.{
  ℕ, ◌+◌, ◌%◌, Bool, true, false, not, Option, none, some, List, [], ◌∷◌, ◌++◌, ◌==◌, map,
  if◌then◌else◌,
}
use scope_analyser.Prelude.Words.{u64_mod}
use scope_analyser.Prelude.Text.{QString, codes, eq_text}
use scope_analyser.Prelude.Dict.{is_some}
use scope_analyser.Core.Types.{
  DataType, size_of, bool, int8, uint8, int16, uint16, int32, uint32, int64, uint64, float32,
  float64,
}
use scope_analyser.Ads.Interfaces.{AdsSymbol}
use scope_analyser.Recorder.Interfaces.{AdsNotificationSpec}

-- `kMockGroup`
abbrev pub mock_group : ℕ
mock_group = 0xDEAD0000

pub data Generator : Type 0 where
  sine_lreal cosine_lreal sawtooth_real counter_dint toggle_bool noisy_sine_lreal : Generator

-- `MockSignalDef`
pub record MockSignalDef : Type 0 where
  pub name : QString
  pub type_name : QString
  pub data_type : DataType
  pub index_offset : ℕ
  pub task_cycle_us : ℕ
  pub generate : Generator

abbrev signal_def : QString → QString → DataType → ℕ → ℕ → Generator → MockSignalDef
signal_def name type_name dt offset cycle generate = record {
  name = name;
  type_name = type_name;
  data_type = dt;
  index_offset = offset;
  task_cycle_us = cycle;
  generate = generate;
}

abbrev pub sine_1hz : MockSignalDef
sine_1hz = signal_def (codes "Mock.sine_1hz") (codes "LREAL") float64 1 1000 sine_lreal

abbrev pub cosine_10hz : MockSignalDef
cosine_10hz = signal_def (codes "Mock.cosine_10hz") (codes "LREAL") float64 2 1000 cosine_lreal

abbrev pub sawtooth : MockSignalDef
sawtooth = signal_def (codes "Mock.sawtooth") (codes "REAL") float32 3 5000 sawtooth_real

abbrev pub counter : MockSignalDef
counter = signal_def (codes "Mock.counter") (codes "DINT") int32 4 10000 counter_dint

abbrev pub toggle : MockSignalDef
toggle = signal_def (codes "Mock.toggle") (codes "BOOL") bool 5 10000 toggle_bool

abbrev pub noisy_sine : MockSignalDef
noisy_sine = signal_def (codes "Mock.noisy_sine") (codes "LREAL") float64 6 1000 noisy_sine_lreal

abbrev pub mock_catalog : List MockSignalDef
mock_catalog = sine_1hz ∷ cosine_10hz ∷ sawtooth ∷ counter ∷ toggle ∷ noisy_sine ∷ []

-- `findByOffset`
unfoldable pub find_by_offset : ℕ → List MockSignalDef → Option MockSignalDef
find_by_offset offset [] = none
find_by_offset offset (s ∷ r) =
    let rest = find_by_offset offset r in if s.index_offset == offset then some s else rest

-- A symbol built field by field, with the defaults of the others.
abbrev scalar : QString → QString → DataType → ℕ → QString → AdsSymbol
scalar name type_name dt offset comment = record {
  name = name;
  type_name = type_name;
  data_type = dt;
  index_group = mock_group;
  index_offset = offset;
  size = size_of dt;
  array_len = 1;
  comment = comment;
  ads_data_type = 0;
  unsupported = false;
}

-- `plcTypeNameFor`
unfoldable pub plc_type_name_for : DataType → QString
plc_type_name_for bool = codes "BOOL"
plc_type_name_for int8 = codes "SINT"
plc_type_name_for uint8 = codes "USINT"
plc_type_name_for int16 = codes "INT"
plc_type_name_for uint16 = codes "UINT"
plc_type_name_for int32 = codes "DINT"
plc_type_name_for uint32 = codes "UDINT"
plc_type_name_for int64 = codes "LINT"
plc_type_name_for uint64 = codes "ULINT"
plc_type_name_for float32 = codes "REAL"
plc_type_name_for float64 = codes "LREAL"

-- `MockMember`
pub record MockMember : Type 0 where
  pub name : QString
  pub type : DataType
  pub offset : ℕ

abbrev member_def : QString → DataType → ℕ → MockMember
member_def name t offset = record { name = name; type = t; offset = offset }

abbrev pub mock_struct_members : List MockMember
mock_struct_members =
    member_def (codes "Mock.stAxis.fActPos") float64 0x40
    ∷ member_def (codes "Mock.stAxis.fActVelo") float64 0x48
    ∷ member_def (codes "Mock.stAxis.nState") int32 0x50
    ∷ member_def (codes "Mock.stAxis.bEnabled") bool 0x54
    ∷ []

-- `Impl::Subscription`
pub record Subscription : Type 0 where
  pub def : MockSignalDef
  pub cycle_time_us : ℕ

-- `Impl`
pub record MockAdsClient : Type 0 where
  pub connected : Bool
  pub subs : List (ℕ × Subscription)
  pub next_handle : ℕ

abbrev find_sub : ℕ → List (ℕ × Subscription) → Option Subscription
find_sub h [] = none
find_sub h ((k, s) ∷ r) = let rest = find_sub h r in if k == h then some s else rest

abbrev erase_sub : ℕ → List (ℕ × Subscription) → List (ℕ × Subscription)
erase_sub h [] = []
erase_sub h ((k, s) ∷ r) = let rest = erase_sub h r in if k == h then rest else (k, s) ∷ rest

-- Whether a handle is subscribed.
unfoldable pub subscribed : MockAdsClient → ℕ → Bool
subscribed c h = is_some (find_sub h c.subs)

unfoldable pub connect : MockAdsClient → MockAdsClient × Bool
connect c = (record c { connected = true }, true)

unfoldable pub disconnect : MockAdsClient → MockAdsClient
disconnect c = if not c.connected then c else record c { connected = false; subs = [] }

-- A new subscription to a signal; a handle that is taken keeps its own.
unfoldable pub subscribe : MockSignalDef → AdsNotificationSpec → MockAdsClient → MockAdsClient × ℕ
subscribe def spec c =
    let sub : Subscription = record {
      def = def;
      cycle_time_us =
          if not (spec.cycle_time_us == 0) then spec.cycle_time_us else def.task_cycle_us;
    } in
    (
      record c {
        next_handle = (c.next_handle + 1) % u64_mod;
        subs =
            if is_some (find_sub c.next_handle c.subs)
            then c.subs
            else (c.next_handle, sub) ∷ c.subs;
      },
      c.next_handle,
    )

-- `addNotification`; 0 is a failure.
unfoldable pub add_notification : AdsNotificationSpec → MockAdsClient → MockAdsClient × ℕ
add_notification spec c = elim (find_by_offset spec.index_offset mock_catalog) [
  | none ↦ (c, 0)
  | some def ↦ subscribe def spec c
]

unfoldable pub remove_notification : ℕ → MockAdsClient → MockAdsClient
remove_notification h c =
    if not (is_some (find_sub h c.subs)) then c else record c { subs = erase_sub h c.subs }

module _ (cycle_comment : ℕ → QString) where
  abbrev listed : MockSignalDef → AdsSymbol
  listed s = scalar s.name s.type_name s.data_type s.index_offset (cycle_comment s.task_cycle_us)

  abbrev structure : AdsSymbol
  structure = record {
    name = codes "Mock.stAxis";
    type_name = codes "ST_Axis";
    data_type = float64;
    index_group = mock_group;
    index_offset = 0x40;
    size = 0x18;
    array_len = 1;
    comment = codes "synthetic structure — resolve members by name";
    ads_data_type = 65;
    unsupported = true;
  }

  -- `listSymbols`; the comment on a cycle is a parameter.
  unfoldable pub list_symbols : List AdsSymbol
  list_symbols = map listed mock_catalog ++ structure ∷ []

abbrev find_member : QString → List MockMember → Option AdsSymbol
find_member n [] = none
find_member n (m ∷ r) =
    let rest = find_member n r in
    if eq_text n m.name
    then some
        (scalar n (plc_type_name_for m.type) m.type m.offset (codes "synthetic struct member"))
    else rest

abbrev find_catalog : QString → List MockSignalDef → Option AdsSymbol
find_catalog n [] = none
find_catalog n (c ∷ r) =
    let rest = find_catalog n r in
    if eq_text n c.name
    then some (scalar c.name c.type_name c.data_type c.index_offset [])
    else rest

-- A member of the structure, else a symbol of the catalogue.
unfoldable pub resolve_known : QString → Option AdsSymbol
resolve_known n = elim (find_member n mock_struct_members) [
  | some s ↦ some s
  | none ↦ find_catalog n mock_catalog
]

-- `resolveSymbol`; the words of its errors are left out.
unfoldable pub resolve_symbol : (QString → QString) → QString → MockAdsClient → Option AdsSymbol
resolve_symbol trimmed name client =
    if not client.connected then none else resolve_known (trimmed name)

-- `AdsTaskInfo`
pub record AdsTaskInfo : Type 0 where
  pub index : ℕ
  pub name : QString
  pub cycle_time_us : ℕ
  pub priority : ℕ
  pub oversampling_enabled : Bool

abbrev task_info : ℕ → QString → ℕ → ℕ → AdsTaskInfo
task_info index name cycle priority = record {
  index = index;
  name = name;
  cycle_time_us = cycle;
  priority = priority;
  oversampling_enabled = false;
}

-- `listTasks`
unfoldable pub list_tasks : List AdsTaskInfo
list_tasks =
    task_info 0 (codes "MockFast") 1000 20
    ∷ task_info 1 (codes "MockMid") 5000 21
    ∷ task_info 2 (codes "MockSlow") 10000 22
    ∷ []

-- `taskCycleForSymbol`
unfoldable pub task_cycle_for_symbol : AdsSymbol → ℕ
task_cycle_for_symbol symbol = elim (find_by_offset symbol.index_offset mock_catalog) [
  | none ↦ 0
  | some def ↦ def.task_cycle_us
]
