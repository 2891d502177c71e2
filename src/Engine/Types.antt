-- ===== src/Engine/Types.antt =====
-- The data of the alert engine: of models.AlertRule, models.AlertRuleCondition, models.Device,
-- models.Metric, models.Alert and models.AlertRuleState the fields that it reads and writes.
-- `F` is float64. Durations in seconds below zero act as zero, and are natural numbers here.
use rayavriti_netmonitor.Common.{ℕ, Bool, String, Option, List}

pub record Condition : Type 0 where
  pub id : ℕ
  pub type : String
  pub metric_field : String
  pub operator : String
  pub value : String
  pub duration_seconds : ℕ

pub record AlertRule : Type 0 where
  pub id : ℕ
  pub name : String
  pub severity : String
  pub scope_type : String
  pub device_id : Option ℕ
  pub enabled : Bool
  pub condition_logic : String
  pub cooldown_sec : ℕ
  pub auto_resolve : Bool
  pub conditions : List Condition
  pub channel_ids : List ℕ

pub record MonitoredDevice : Type 0 where
  pub id : ℕ
  pub name : String
  pub location_id : Option ℕ
  pub ip_address : String

-- `port_changes` is the entry of that name in the details, if it is a float64.
pub record MetricReading (F : Type 0) : Type 0 where
  pub status : String
  pub timestamp : ℕ
  pub response_time : Option F
  pub packet_loss : Option F
  pub cpu_usage : Option F
  pub memory_usage : Option F
  pub bandwidth : Option F
  pub custom_value : Option F
  pub port_changes : Option F

pub record AnomalyBaseline (F : Type 0) : Type 0 where
  pub mean : F
  pub std_dev : F
  pub sample_count : ℕ

-- A description, by its format and the values in it; `undescribed` is the empty text.
pub data Description (F : Type 0) : Type 0 where
  undescribed : Description F
  no_value : String → Description F
  compared : String → String → String → F → Description F
  status_changed : String → String → Description F
  status_is : String → Description F
  ports_changed : F → F → Description F
  no_data : F → F → Description F
  no_anomaly_value : String → Description F
  few_samples : String → ℕ → Description F
  anomalous : String → F → F → Description F
  normal : String → F → F → Description F

-- The fields that are always 0 are left out.
pub record ConditionResult (F : Type 0) : Type 0 where
  pub condition_id : ℕ
  pub type : String
  pub field : String
  pub operator : String
  pub threshold : F
  pub actual_value : F
  pub result : Bool
  pub description : Description F

pub data Phase : Type 0 where
  idle pending firing notified acknowledged resolved : Phase

-- `ConditionSnapshot`: absent, as the engine makes it, or as it is read back from JSON, where the
-- results are no longer values of the type ConditionResult.
pub data Snapshot (F : Type 0) : Type 0 where
  absent : Snapshot F
  typed : List (ConditionResult F) → Snapshot F
  decoded : List (ConditionResult F) → Snapshot F

pub record AlertRuleState (F : Type 0) : Type 0 where
  pub state : Phase
  pub first_met_at : Option ℕ
  pub last_evaluated_at : Option ℕ
  pub last_fired_at : Option ℕ
  pub last_resolved_at : Option ℕ
  pub active_alert_id : Option ℕ
  pub condition_snapshot : Snapshot F

-- The message of an alert, by its format and the values in it.
pub data AlertMessage (F : Type 0) : Type 0 where
  described : String → String → Description F → AlertMessage F
  triggered : String → String → AlertMessage F
  no_data_from : String → F → AlertMessage F

pub record Alert (F : Type 0) : Type 0 where
  pub id : ℕ
  pub device_id : ℕ
  pub device_name : String
  pub severity : String
  pub message : AlertMessage F
  pub status : String
  pub rule_id : Option ℕ
