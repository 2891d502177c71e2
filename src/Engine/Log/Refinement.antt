-- ===== src/Engine/Log/Refinement.antt =====
-- engine/alert.go: ProcessMetric and the absence loop implement the log.
use rayavriti_netmonitor.Common.{
  Bool, not, Option, none, some, String, str_eq, List, [], ◌∷◌, inl, inr, count_if,
}
use rayavriti_netmonitor.Engine.Types.{
  AlertRule, MonitoredDevice, Alert, ConditionResult, MetricReading, Condition, no_data_from,
}
use rayavriti_netmonitor.Engine.Conditions.{Floats, evaluate_condition}
use rayavriti_netmonitor.Engine.Suppression.{SuppressedAlert, check_suppression_for_device}
use rayavriti_netmonitor.Engine.Effects.{
  Faults, Wiring, Engine, Created, create, new_alert, find_active_alert_for_rule, rule_triggered,
  rule_applies_to_device,
}
use rayavriti_netmonitor.Engine.Alerts.{Moment}
use rayavriti_netmonitor.Engine.Rules.{
  absence_created, evaluation_of, met, absence_unless_suppressed, absence_unless_active,
  evaluate_rule, process_metric, when_stale, check_absence, Reading, check_devices,
  check_conditions, evaluate_absence_conditions, latest_reading,
}
use rayavriti_netmonitor.Engine.Log.{log_of, LogSteps, here, append-LogSteps}
use rayavriti_netmonitor.Engine.Log.Announcing.{
  quiet, log_of-record_suppressed_alert, IsMade, create-IsMade, lost-LogSteps, announced-LogSteps,
}
use rayavriti_netmonitor.Engine.Log.Evaluating.{IsLogged, if-IsLogged, handle-IsLogged}

module _ {F : Type 0} (w : Wiring) (f : Faults) (rule : AlertRule) (device : MonitoredDevice)
    (value : F) where
  absence_created-LogSteps :
      (e : Engine F) (made : Created F × Engine F)
      → IsMade (new_alert rule device (no_data_from device.name value)) e made
      → LogSteps (log_of e) (log_of (absence_created w f rule made))
  unfolding absence_created
  absence_created-LogSteps e made (inl h) = rw h here
  absence_created-LogSteps e made (inr (inl h)) = rw h here
  absence_created-LogSteps e made (inr (inr (free, inl h))) =
      rw h (lost-LogSteps rule device (no_data_from device.name value) e free)
  absence_created-LogSteps e made (inr (inr (free, inr h))) =
      rw h (announced-LogSteps rule device (no_data_from device.name value) w f e free)

  absence_unless_suppressed-IsLogged :
      (o : Option SuppressedAlert) → IsLogged (absence_unless_suppressed w f rule device value o)
  unfolding absence_unless_suppressed
  absence_unless_suppressed-IsLogged (some a) e = quiet (log_of-record_suppressed_alert w f a e)
  absence_unless_suppressed-IsLogged none e =
      let a = new_alert rule device (no_data_from device.name value) in
      absence_created-LogSteps e (create f a e) (create-IsMade f a e)

  absence_unless_active-IsLogged :
      (o : Option (Alert F)) → IsLogged (absence_unless_active w f rule device value o)
  unfolding absence_unless_active
  absence_unless_active-IsLogged (some a) e = here
  absence_unless_active-IsLogged none e =
      absence_unless_suppressed-IsLogged (check_suppression_for_device w.checkers device rule) e

module _ {F : Type 0} (fl : Floats F) (same : ConditionResult F → ConditionResult F → Bool)
    (w : Wiring) where
  evaluate_rule-IsLogged :
      (t : Moment F) (rule : AlertRule) (device : MonitoredDevice) (m : MetricReading F)
      (previous : String)
      → IsLogged (evaluate_rule fl same w t rule device m previous)
  unfolding evaluate_rule
  evaluate_rule-IsLogged t rule device m previous e =
      let v = evaluation_of fl same w t rule device m previous e in
      handle-IsLogged w v same (rule_triggered rule (count_if met v.results)) e

  -- ProcessMetric implements the log of alerts: whatever the rules, the metric, the states of the rules
  -- and the calls of the database that fail, what it does to the table of alerts and to the queue of
  -- notifications is a sequence of the log's steps. An alert is opened only if its rule and device
  -- have no active one, with a fresh id, and only then may it be queued, if the queue has room.
  pub process_metric-LogSteps :
      (moment : AlertRule → Moment F) (rules : List AlertRule) (device : MonitoredDevice)
      (m : MetricReading F) (previous : String) (e : Engine F)
      → LogSteps (log_of e) (log_of (process_metric fl same w moment rules device m previous e))
  unfolding process_metric
  process_metric-LogSteps moment [] device m previous e = here
  process_metric-LogSteps moment (rule ∷ rules) device m previous e =
      append-LogSteps
        (if-IsLogged (rule_applies_to_device rule device)
          (evaluate_rule fl same w (moment rule) rule device m previous) (λ d. d) e
          (evaluate_rule-IsLogged (moment rule) rule device m previous e) here)
        (process_metric-LogSteps moment rules device m previous _)

  when_stale-IsLogged :
      (f : Faults) (rule : AlertRule) (device : MonitoredDevice) (r : ConditionResult F)
      → IsLogged (when_stale fl same w f rule device r)
  when_stale-IsLogged f rule device r e =
      if-IsLogged (not r.result) (λ d. d)
        (λ d.
          absence_unless_active w f rule device r.actual_value
            (find_active_alert_for_rule f.find_active rule device d) d)
        e here
        (absence_unless_active-IsLogged w f rule device r.actual_value
          (find_active_alert_for_rule f.find_active rule device e) e)

  check_absence-IsLogged :
      (t : Moment F) (rule : AlertRule) (device : MonitoredDevice) (c : Condition)
      (o : Option (MetricReading F))
      → IsLogged (check_absence fl same w t rule device c o)
  unfolding check_absence
  check_absence-IsLogged t rule device c none e = here
  check_absence-IsLogged t rule device c (some m) e =
      when_stale-IsLogged t.faults rule device
        (evaluate_condition fl t.clock c (latest_reading m) "" none) e

  module _ (reading : Reading F) where
    check_devices-IsLogged :
        (rule : AlertRule) (c : Condition) (devices : List MonitoredDevice)
        → IsLogged (check_devices fl same w reading rule c devices)
    unfolding check_devices
    check_devices-IsLogged rule c [] e = here
    check_devices-IsLogged rule c (device ∷ devices) e =
        let (t, latest) = reading rule c device in
        append-LogSteps
          (if-IsLogged (rule_applies_to_device rule device)
            (check_absence fl same w t rule device c latest) (λ d. d) e
            (check_absence-IsLogged t rule device c latest e) here)
          (check_devices-IsLogged rule c devices _)

    check_conditions-IsLogged :
        (rule : AlertRule) (devices : List MonitoredDevice) (conditions : List Condition)
        → IsLogged (check_conditions fl same w reading rule devices conditions)
    unfolding check_conditions
    check_conditions-IsLogged rule devices [] e = here
    check_conditions-IsLogged rule devices (c ∷ conditions) e =
        append-LogSteps
          (if-IsLogged (str_eq c.type "absence") (check_devices fl same w reading rule c devices)
            (λ d. d) e (check_devices-IsLogged rule c devices e) here)
          (check_conditions-IsLogged rule devices conditions _)

    -- The loop for devices without data implements the log of alerts as well, whatever it reads and
    -- whatever fails.
    pub evaluate_absence_conditions-LogSteps :
        (devices : List MonitoredDevice) (rules : List AlertRule) (e : Engine F)
        → LogSteps
            (log_of e)
            (log_of (evaluate_absence_conditions fl same w reading devices rules e))
    unfolding evaluate_absence_conditions
    evaluate_absence_conditions-LogSteps devices [] e = here
    evaluate_absence_conditions-LogSteps devices (rule ∷ rules) e =
        append-LogSteps
          (if-IsLogged rule.enabled
            (check_conditions fl same w reading rule devices rule.conditions) (λ d. d) e
            (check_conditions-IsLogged rule devices rule.conditions e) here)
          (evaluate_absence_conditions-LogSteps devices rules _)
