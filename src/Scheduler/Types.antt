-- ===== src/Scheduler/Types.antt =====
-- The data that the parts of backend/internal/scheduler exchange (poll_dispatcher.go,
-- worker_pool.go), and of models.Device the fields that they read.
use rayavriti_netmonitor.Common.{ℕ, Bool, true, false, String, Option, none, some, List}

pub data DeviceState : Type 0 where
  healthy unreachable paused : DeviceState

abbrev pub is_healthy : DeviceState → Bool
is_healthy healthy = true
is_healthy _ = false

abbrev pub is_unreachable : DeviceState → Bool
is_unreachable unreachable = true
is_unreachable _ = false

abbrev pub is_paused : DeviceState → Bool
is_paused paused = true
is_paused _ = false

-- `interval` is in seconds.
pub record Device : Type 0 where
  pub id : ℕ
  pub name : String
  pub protocol : String
  pub device_category : String
  pub interval : ℕ
  pub status : String

pub record PollJob : Type 0 where
  pub device : Device
  pub priority : ℕ
  pub schedule_at : ℕ

-- What a collector measured. `F` stands for data that the scheduler only copies: float64 values,
-- details, samples of an interface and neighbours.
pub record CollectResult (F : Type 0) : Type 0 where
  pub status : String
  pub response_time : Option F
  pub packet_loss : Option F
  pub cpu_usage : Option F
  pub memory_usage : Option F
  pub bandwidth : Option F
  pub details : Option F
  pub interfaces : List F
  pub neighbors : List F
  pub neighbors_collected : Bool

-- `finished_at` is `none` for the zero time.
pub record PollResult (F : Type 0) : Type 0 where
  pub device : Device
  pub collect_result : Option (CollectResult F)
  pub status : String
  pub response_ms : F
  pub error : Option String
  pub started_at : ℕ
  pub finished_at : Option ℕ

abbrev pub has_error {ℓ} : {A : Type ℓ} → Option A → Bool
has_error none = false
has_error (some e) = true
