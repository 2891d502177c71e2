-- ===== src/Engine/Effects.antt =====
-- engine/alert.go: what the engine reads and changes, and the single effects of an evaluation. The log
-- lines and the metrics are left out, and times are nanoseconds.
use rayavriti_netmonitor.Common.{
  ℕ, Bool, true, false, not, ◌&&◌, ◌||◌, String, str_eq, Option, none, some, List, [], ◌∷◌, ◌++◌,
  ◌==◌, if◌then◌else◌, length, ltb,
}
use rayavriti_netmonitor.Engine.Types.{
  Condition, AlertRule, MonitoredDevice, Description, undescribed, ConditionResult, idle, absent,
  AlertRuleState, AlertMessage, described, triggered, Alert,
}
use rayavriti_netmonitor.Engine.Suppression.{Checkers, SuppressedAlert}
use rayavriti_netmonitor.Engine.Store.{
  Store, find_active_alert, create_alert, upsert_alert_rule_state,
}

-- Which of the calls of the database fail in an evaluation; `reread` is the query of CreateAlert for
-- the row that it has inserted.
pub record Faults : Type 0 where
  pub get_state : Bool
  pub find_active : Bool
  pub create : Bool
  pub reread : Bool
  pub find_again : Bool
  pub update_status : Bool
  pub upsert : Bool
  pub record_history : Bool
  pub record_suppressed : Bool

-- What the engine was made with.
pub record Wiring : Type 0 where
  pub checkers : Checkers
  pub has_recorder : Bool
  pub has_hub : Bool
  pub has_notifier : Bool

pub data Broadcast (F : Type 0) : Type 0 where
  alert_triggered : Alert F → Broadcast F
  alert_resolved : ℕ → ℕ → Broadcast F

pub record NotificationJob (F : Type 0) : Type 0 where
  pub rule : AlertRule
  pub alert : Alert F

pub record Engine (F : Type 0) : Type 0 where
  pub store : Store F
  pub broadcasts : List (Broadcast F)
  pub notif_queue : List (NotificationJob F)

abbrev pub notif_queue_size : ℕ
notif_queue_size = 256

abbrev pub second : ℕ
second = 1000000000

abbrev pub actor : String
actor = "system:alert_engine"

abbrev pub is_device : Option ℕ → ℕ → Bool
is_device none id = false
is_device (some d) id = d == id

unfoldable pub rule_applies_to_device : AlertRule → MonitoredDevice → Bool
rule_applies_to_device rule device =
    if str_eq rule.scope_type "device" then is_device rule.device_id device.id else true

-- The cooldown or the longest duration of a condition.
abbrev pub longest : ℕ → List Condition → ℕ
longest n [] = n
longest n (c ∷ conditions) =
    longest (if ltb n c.duration_seconds then c.duration_seconds else n) conditions

unfoldable pub sustained_duration : AlertRule → ℕ
sustained_duration rule = longest rule.cooldown_sec rule.conditions

unfoldable pub rule_triggered : AlertRule → ℕ → Bool
rule_triggered rule met =
    if str_eq rule.condition_logic "all" then met == length rule.conditions else ltb 0 met

-- CreateAlert returns the row, or that there is an active one, or another error.
pub data Created (F : Type 0) : Type 0 where
  row : Alert F → Created F
  duplicate : Created F
  failed : Created F

abbrev pub has_none {ℓ} : {A : Type ℓ} → List A → Bool
has_none [] = true
has_none (x ∷ xs) = false

module _ {F : Type 0} where
  abbrev pub is_undescribed : Description F → Bool
  is_undescribed undescribed = true
  is_undescribed d = false

  unfoldable pub build_alert_message :
      AlertRule → MonitoredDevice → List (ConditionResult F) → AlertMessage F
  build_alert_message rule device [] = triggered rule.name device.name
  build_alert_message rule device (r ∷ results) =
      let rest = build_alert_message rule device results in
      if r.result && not (is_undescribed r.description)
      then described rule.name device.name r.description
      else rest

  abbrev pub idle_state : AlertRuleState F
  idle_state = record {
    state = idle;
    first_met_at = none;
    last_evaluated_at = none;
    last_fired_at = none;
    last_resolved_at = none;
    active_alert_id = none;
    condition_snapshot = absent;
  }

  abbrev pub changed_store : (Store F → Store F) → Engine F → Engine F
  changed_store change e = record e { store = change e.store }

  unfoldable pub upsert_state :
      Faults → AlertRule → MonitoredDevice → AlertRuleState F → Engine F → Engine F
  upsert_state f rule device st e =
      if f.upsert then e else changed_store (upsert_alert_rule_state rule.id device.id st) e

  unfoldable pub record_history : Faults → ℕ → ℕ → String → String → Engine F → Engine F
  record_history f alert rule action by e =
      if f.record_history
      then e
      else changed_store
          (λ s. record s {
            history =
                s.history
                ++ record { alert_id = alert; rule_id = rule; action = action; actor = by } ∷ [];
          })
          e

  unfoldable pub find_active_alert_for_rule :
      Bool → AlertRule → MonitoredDevice → Engine F → Option (Alert F)
  find_active_alert_for_rule fails rule device e =
      if fails then none else find_active_alert rule.id device.id e.store

  unfoldable pub broadcast : Wiring → Broadcast F → Engine F → Engine F
  broadcast w b e = if w.has_hub then record e { broadcasts = e.broadcasts ++ b ∷ [] } else e

  -- A full queue drops the job.
  unfoldable pub send_notifications : Wiring → AlertRule → Alert F → Engine F → Engine F
  send_notifications w rule a e =
      if not w.has_notifier || has_none rule.channel_ids
      then e
      else if ltb (length e.notif_queue) notif_queue_size
      then record e { notif_queue = e.notif_queue ++ record { rule = rule; alert = a } ∷ [] }
      else e

  unfoldable pub record_suppressed_alert : Wiring → Faults → SuppressedAlert → Engine F → Engine F
  record_suppressed_alert w f a e =
      if not w.has_recorder || f.record_suppressed
      then e
      else changed_store (λ s. record s { suppressed_alerts = s.suppressed_alerts ++ a ∷ [] }) e

  abbrev pub inserted : Faults → Option (Alert F × Store F) → Engine F → Created F × Engine F
  inserted f none e = (duplicate, e)
  inserted f (some (a, s)) e = (if f.reread then failed else row a, record e { store = s })

  unfoldable pub create : Faults → Alert F → Engine F → Created F × Engine F
  create f a e = if f.create then (failed, e) else inserted f (create_alert a e.store) e

  -- An alert as it is given to CreateAlert, which chooses its id.
  abbrev pub new_alert : AlertRule → MonitoredDevice → AlertMessage F → Alert F
  new_alert rule device message = record {
    id = 0;
    device_id = device.id;
    device_name = device.name;
    severity = rule.severity;
    message = message;
    status = "active";
    rule_id = some rule.id;
  }
