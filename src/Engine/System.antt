-- ===== src/Engine/System.antt =====
-- The alert engine with the acts of an operator (handlers/alerts.go) and the workers that take jobs from
-- the queue of notifications, as one system whose parts take turns.
pub mod Runs
use rayavriti_netmonitor.Common.{
  ℕ, Bool, String, str_eq, Option, none, some, List, [], ◌∷◌, ◌++◌, if◌then◌else◌,
}
use rayavriti_netmonitor.Engine.Types.{
  Condition, AlertRule, MonitoredDevice, MetricReading, ConditionResult, Alert,
}
use rayavriti_netmonitor.Engine.Conditions.{Floats}
use rayavriti_netmonitor.Engine.Store.{Store, create_alert, update_alert_status, delete_alert}
use rayavriti_netmonitor.Engine.Effects.{Wiring, Engine, NotificationJob}
use rayavriti_netmonitor.Engine.Alerts.{Moment}
use rayavriti_netmonitor.Engine.Rules.{Reading, process_metric, evaluate_absence_conditions}

-- `taken` are the jobs that workers have taken, in order.
pub record System (F : Type 0) : Type 0 where
  pub engine : Engine F
  pub taken : List (NotificationJob F)

pub data Event (F : Type 0) : Type 0 where
  metric_arrived :
      (AlertRule → Moment F) → List AlertRule → MonitoredDevice → MetricReading F → String → Event F
  absence_ticked : Reading F → List MonitoredDevice → List AlertRule → Event F
  alert_created : Alert F → Event F
  status_updated : ℕ → String → Event F
  alert_acknowledged : ℕ → Event F
  alert_resolved : ℕ → Event F
  alert_deleted : ℕ → Event F
  job_taken : Event F

-- Update takes "triggered" for "active".
abbrev pub normalized : String → String
normalized status = if str_eq status "triggered" then "active" else status

module _ {F : Type 0} where
  abbrev pub stored : Option (Store F) → Engine F → Engine F
  stored none e = e
  stored (some s) e = record e { store = s }

  abbrev pub store_created : Option (Alert F × Store F) → Engine F → Engine F
  store_created none e = e
  store_created (some (a, s)) e = record e { store = s }

  -- Handlers with an id and a status.
  abbrev pub set_status : ℕ → String → Engine F → Engine F
  set_status id status e = stored (update_alert_status id status e.store) e

  -- A worker takes the first job.
  abbrev pub take_job : List (NotificationJob F) → System F → System F
  take_job [] s = s
  take_job (job ∷ queue) s = record {
    engine = record s.engine { notif_queue = queue };
    taken = s.taken ++ job ∷ [];
  }

  abbrev pub on_engine : (Engine F → Engine F) → System F → System F
  on_engine change s = record s { engine = change s.engine }

module _ {F : Type 0} (fl : Floats F) (same : ConditionResult F → ConditionResult F → Bool)
    (w : Wiring) where
  unfoldable pub step : Event F → System F → System F
  step (metric_arrived moment rules device m previous) s =
      on_engine (process_metric fl same w moment rules device m previous) s
  step (absence_ticked reading devices rules) s =
      on_engine (evaluate_absence_conditions fl same w reading devices rules) s
  step (alert_created a) s = on_engine (λ e. store_created (create_alert a e.store) e) s
  step (status_updated id status) s = on_engine (set_status id (normalized status)) s
  step (alert_acknowledged id) s = on_engine (set_status id "acknowledged") s
  step (alert_resolved id) s = on_engine (set_status id "resolved") s
  step (alert_deleted id) s = on_engine (λ e. record e { store = delete_alert id e.store }) s
  step job_taken s = take_job s.engine.notif_queue s

  unfoldable pub run : List (Event F) → System F → System F
  unfolding step
  run [] s = s
  run (event ∷ events) s = run events (step event s)
