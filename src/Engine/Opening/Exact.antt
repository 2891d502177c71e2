-- ===== src/Engine/Opening/Exact.antt =====
-- engine/alert.go, evaluateRule: the number of alerts after an evaluation.
use rayavriti_netmonitor.Common.{
  ℕ, ◌+◌, ◌≡◌, refl, ap, Bool, true, false, not, ◌&&◌, Option, none, some, String, List, [], ◌∷◌,
  length, arith, one_if, Bool-cases, inl, inr, if◌then◌else◌, ◌∙◌, count_if,
}
use rayavriti_netmonitor.Engine.Types.{
  AlertRule, MonitoredDevice, Alert, ConditionResult, MetricReading, Phase, idle, pending, firing,
  notified, acknowledged, resolved,
}
use rayavriti_netmonitor.Engine.Conditions.{Floats}
use rayavriti_netmonitor.Engine.Store.{Store, update_alert_status, with_status, is_unique_among}
use rayavriti_netmonitor.Engine.Effects.{Wiring, Engine, alert_resolved, actor, rule_triggered}
use rayavriti_netmonitor.Engine.Firing.{Evaluation}
use rayavriti_netmonitor.Engine.Alerts.{
  Moment, touch, after_update, resolve_alert, auto_resolve, on_cleared, handle_condition_cleared,
  handle,
}
use rayavriti_netmonitor.Engine.Rules.{met, evaluation_of, evaluate_rule}
use rayavriti_netmonitor.Engine.Log.Announcing.{log_of-record_history, log_of-broadcast}
use rayavriti_netmonitor.Engine.Opening.{is_due, is_free, none_opened, handle_condition_met-length}

module _ {F : Type 0} where
  pub length-with_status :
      (id : ℕ) (status : String) (alerts : List (Alert F))
      → length (with_status id status alerts) ≡ length alerts
  length-with_status id status [] = refl
  length-with_status id status (a ∷ alerts) = omega (arith, length-with_status id status alerts)

  after_update-length :
      (w : Wiring) (v : Evaluation F) (alert : ℕ) (o : Option (Store F)) (e : Engine F)
      → ((s : Store F) → o ≡ some s → length s.alerts ≡ length e.store.alerts)
      → length (after_update w v alert o e).store.alerts ≡ length e.store.alerts
  after_update-length w v alert none e h = refl
  after_update-length w v alert (some s) e h =
      ap (λ l. length l.alerts)
        (log_of-broadcast w (alert_resolved alert v.device.id) _
          ∙ log_of-record_history v.faults alert v.rule.id "auto_resolved" actor
              (record e { store = s }))
      ∙ h s refl

  resolve_alert-length :
      (w : Wiring) (v : Evaluation F) (o : Option ℕ) (e : Engine F)
      → length (resolve_alert w v o e).store.alerts ≡ length e.store.alerts
  unfolding resolve_alert update_alert_status
  resolve_alert-length w v none e = refl
  resolve_alert-length w v (some alert) e =
      let alerts = with_status alert "resolved" e.store.alerts in
      let kept = length-with_status alert "resolved" e.store.alerts in
      after_update-length w v alert _ e (elim (Bool-cases v.faults.update_status) [
        | inl h ↦ rw h (λ s f. cc)
        | inr h ↦ elim (Bool-cases (is_unique_among alerts alerts)) [
          | inl g ↦ rw h (rw g (λ s f. cc (f, kept)))
          | inr g ↦ rw h (rw g (λ s f. cc))
        ]
      ])

  -- Either way of a test.
  either_length :
      (b : Bool) (d c : Engine F) (n : ℕ)
      → length d.store.alerts ≡ n
      → length c.store.alerts ≡ n
      → length (if b then d else c).store.alerts ≡ n
  either_length true d c n hd hc = hd
  either_length false d c n hd hc = hc

  on_cleared-length :
      (w : Wiring) (v : Evaluation F) (e : Engine F)
      → length (on_cleared w v e).store.alerts ≡ length e.store.alerts + 0
  unfolding on_cleared auto_resolve touch
  on_cleared-length w v e = either_length (not v.rule.auto_resolve) _ _ _ (none_opened v _ e) (
      none_opened v _ (resolve_alert w v v.state.active_alert_id e)
      ∙ omega (arith, resolve_alert-length w v v.state.active_alert_id e))

  handle_condition_cleared-length :
      (w : Wiring) (v : Evaluation F) (p : Phase) (e : Engine F)
      → length (handle_condition_cleared w v p e).store.alerts ≡ length e.store.alerts + 0
  unfolding handle_condition_cleared
  handle_condition_cleared-length w v idle e = omega arith
  handle_condition_cleared-length w v pending e = none_opened v _ e
  handle_condition_cleared-length w v resolved e = omega arith
  handle_condition_cleared-length w v firing e = on_cleared-length w v e
  handle_condition_cleared-length w v notified e = on_cleared-length w v e
  handle_condition_cleared-length w v acknowledged e = on_cleared-length w v e

  handle-length :
      (same : ConditionResult F → ConditionResult F → Bool) (w : Wiring) (v : Evaluation F)
      (b : Bool) (e : Engine F)
      → length (handle same w v b e).store.alerts
        ≡ length e.store.alerts + one_if (b && (is_due v v.state.state && is_free w v e))
  unfolding handle
  handle-length same w v true e = handle_condition_met-length same w v v.state.state e
  handle-length same w v false e = handle_condition_cleared-length w v v.state.state e

module _ {F : Type 0} (fl : Floats F) (same : ConditionResult F → ConditionResult F → Bool)
    (w : Wiring) where
  -- Whether an evaluation opens an alert.
  abbrev pub opens :
      Moment F → AlertRule → MonitoredDevice → MetricReading F → String → Engine F → Bool
  opens t rule device m previous e =
      let v = evaluation_of fl same w t rule device m previous e in
      rule_triggered rule (count_if met v.results) && (is_due v v.state.state && is_free w v e)

  -- An evaluation of a rule on a device adds one alert if the rule is triggered, its state is due (it
  -- is pending and has been for the longest of the conditions' durations and the cooldown, or the
  -- cooldown has passed since it was resolved), no active alert
  -- of the rule and the device is found or in the table, no checker suppresses it and the insertion does
  -- not fail; otherwise it adds none and takes none away.
  pub evaluate_rule-length :
      (t : Moment F) (rule : AlertRule) (device : MonitoredDevice) (m : MetricReading F)
      (previous : String) (e : Engine F)
      → length (evaluate_rule fl same w t rule device m previous e).store.alerts
        ≡ length e.store.alerts + one_if (opens t rule device m previous e)
  unfolding evaluate_rule
  evaluate_rule-length t rule device m previous e =
      let v = evaluation_of fl same w t rule device m previous e in
      handle-length same w v (rule_triggered rule (count_if met v.results)) e
