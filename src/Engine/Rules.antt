-- ===== src/Engine/Rules.antt =====
-- engine/alert.go: the rules on a metric (ProcessMetric), on the devices without data (the absence
-- loop), and with them the acts of an operator in handlers/alerts.go and the workers that take jobs.
use rayavriti_netmonitor.Common.{
  Bool, not, String, str_eq, Option, none, some, List, [], ◌∷◌, if◌then◌else◌, count_if,
}
use rayavriti_netmonitor.Engine.Types.{
  Condition, AlertRule, MonitoredDevice, MetricReading, ConditionResult, no_data_from, Alert,
}
use rayavriti_netmonitor.Engine.Conditions.{Floats, evaluate_condition}
use rayavriti_netmonitor.Engine.Suppression.{SuppressedAlert, check_suppression_for_device}
use rayavriti_netmonitor.Engine.Effects.{
  Faults, Wiring, Engine, rule_applies_to_device, rule_triggered, find_active_alert_for_rule,
  record_suppressed_alert, Created, row, duplicate, failed, create, new_alert,
}
use rayavriti_netmonitor.Engine.Firing.{Evaluation, announce}
use rayavriti_netmonitor.Engine.Alerts.{Moment, current_state, evaluate_all, handle}

module _ {F : Type 0} where
  abbrev pub met : ConditionResult F → Bool
  met r = r.result

  -- What checkAbsence evaluates: the time and the status of the latest metric.
  abbrev pub latest_reading : MetricReading F → MetricReading F
  latest_reading m = record {
    status = m.status;
    timestamp = m.timestamp;
    response_time = none;
    packet_loss = none;
    cpu_usage = none;
    memory_usage = none;
    bandwidth = none;
    custom_value = none;
    port_changes = none;
  }

  unfoldable pub absence_created : Wiring → Faults → AlertRule → Created F × Engine F → Engine F
  absence_created w f rule (row a, e) = announce w f rule a e
  absence_created w f rule (duplicate, e) = e
  absence_created w f rule (failed, e) = e

  unfoldable pub absence_unless_suppressed :
      Wiring
      → Faults
      → AlertRule
      → MonitoredDevice
      → F
      → Option SuppressedAlert
      → Engine F
      → Engine F
  absence_unless_suppressed w f rule device value (some a) e = record_suppressed_alert w f a e
  absence_unless_suppressed w f rule device value none e =
      absence_created w f rule (create f (new_alert rule device (no_data_from device.name value)) e)

  unfoldable pub absence_unless_active :
      Wiring → Faults → AlertRule → MonitoredDevice → F → Option (Alert F) → Engine F → Engine F
  absence_unless_active w f rule device value (some a) e = e
  absence_unless_active w f rule device value none e =
      absence_unless_suppressed w f rule device value
        (check_suppression_for_device w.checkers device rule) e

-- The moment of each check, and the latest metric where its query succeeds and finds one.
abbrev pub Reading : Type 0 → Type 0
Reading F = AlertRule → Condition → MonitoredDevice → Moment F × Option (MetricReading F)

module _ {F : Type 0} (fl : Floats F) (same : ConditionResult F → ConditionResult F → Bool)
    (w : Wiring) where
  abbrev pub evaluation_of :
      Moment F → AlertRule → MonitoredDevice → MetricReading F → String → Engine F → Evaluation F
  evaluation_of t rule device m previous e = record {
    faults = t.faults;
    rule = rule;
    device = device;
    state = current_state t.faults rule device e;
    now = t.now;
    results = evaluate_all fl t device m previous rule.conditions;
  }

  unfoldable pub evaluate_rule :
      Moment F → AlertRule → MonitoredDevice → MetricReading F → String → Engine F → Engine F
  evaluate_rule t rule device m previous e =
      let v = evaluation_of t rule device m previous e in
      handle same w v (rule_triggered rule (count_if met v.results)) e

  -- `moment` is the moment of each rule's evaluation.
  unfoldable pub process_metric :
      (AlertRule → Moment F)
      → List AlertRule
      → MonitoredDevice
      → MetricReading F
      → String
      → Engine F
      → Engine F
  process_metric moment [] device m previous e = e
  process_metric moment (rule ∷ rules) device m previous e =
      process_metric moment rules device m previous (
        if rule_applies_to_device rule device
        then evaluate_rule (moment rule) rule device m previous e
        else e)

  abbrev pub when_stale :
      Faults → AlertRule → MonitoredDevice → ConditionResult F → Engine F → Engine F
  when_stale f rule device r e =
      if not r.result
      then e
      else absence_unless_active w f rule device r.actual_value
          (find_active_alert_for_rule f.find_active rule device e) e

  -- A device without metrics, or whose query fails, is passed over.
  unfoldable pub check_absence :
      Moment F
      → AlertRule
      → MonitoredDevice
      → Condition
      → Option (MetricReading F)
      → Engine F
      → Engine F
  check_absence t rule device c none e = e
  check_absence t rule device c (some m) e =
      when_stale t.faults rule device (evaluate_condition fl t.clock c (latest_reading m) "" none) e

  unfoldable pub check_devices :
      Reading F → AlertRule → Condition → List MonitoredDevice → Engine F → Engine F
  check_devices reading rule c [] e = e
  check_devices reading rule c (device ∷ devices) e =
      let (t, latest) = reading rule c device in
      check_devices reading rule c devices
        (if rule_applies_to_device rule device then check_absence t rule device c latest e else e)

  unfoldable pub check_conditions :
      Reading F → AlertRule → List MonitoredDevice → List Condition → Engine F → Engine F
  check_conditions reading rule devices [] e = e
  check_conditions reading rule devices (c ∷ conditions) e =
      check_conditions reading rule devices conditions
        (if str_eq c.type "absence" then check_devices reading rule c devices e else e)

  unfoldable pub evaluate_absence_conditions :
      Reading F → List MonitoredDevice → List AlertRule → Engine F → Engine F
  evaluate_absence_conditions reading devices [] e = e
  evaluate_absence_conditions reading devices (rule ∷ rules) e =
      evaluate_absence_conditions reading devices rules
        (if rule.enabled then check_conditions reading rule devices rule.conditions e else e)
