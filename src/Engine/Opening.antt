-- ===== src/Engine/Opening.antt =====
-- engine/alert.go: exactly when an evaluation opens an alert.
pub mod Exact
pub mod Unsuppressed
use rayavriti_netmonitor.Common.{
  ℕ, ◌+◌, ◌≡◌, refl, sym, ap, Bool, true, false, not, ◌&&◌, ◌||◌, Option, none, some, String, List,
  [], ◌∷◌, ◌++◌, length, length-append, arith, leb, one_if, Bool-cases, inl, inr, if◌then◌else◌,
  ◌∙◌, count_if,
}
use rayavriti_netmonitor.Engine.Types.{
  AlertRule, MonitoredDevice, Alert, ConditionResult, MetricReading, AlertRuleState, Phase, idle,
  pending, firing, notified, acknowledged, resolved, typed,
}
use rayavriti_netmonitor.Engine.Conditions.{Floats}
use rayavriti_netmonitor.Engine.Suppression.{SuppressedAlert, check_suppression_for_device}
use rayavriti_netmonitor.Engine.Store.{
  Store, rivals, create_alert, update_alert_status, with_status, is_unique_among,
}
use rayavriti_netmonitor.Engine.Effects.{
  Faults, Wiring, Engine, Broadcast, alert_resolved, upsert_state, record_history, broadcast, actor,
  Created, row, duplicate, failed, create, new_alert, build_alert_message,
  find_active_alert_for_rule, sustained_duration, rule_triggered,
}
use rayavriti_netmonitor.Engine.Firing.{
  Evaluation, point_at, point_at_found, announce, after_create, unless_suppressed, unless_active,
  fire_alert,
}
use rayavriti_netmonitor.Engine.Alerts.{
  Moment, touch, has_passed, is_cooling, still_pending, start_pending, on_pending, on_resolved,
  handle_condition_met, after_update, unless_failed, resolve_alert, auto_resolve, on_cleared,
  handle_condition_cleared, handle, snapshots_equal,
}
use rayavriti_netmonitor.Engine.Rules.{met, evaluation_of, evaluate_rule}
use rayavriti_netmonitor.Engine.Log.{log_of}
use rayavriti_netmonitor.Engine.Log.Announcing.{
  log_of-upsert_state, log_of-record_suppressed_alert, log_of-record_history, log_of-broadcast,
  announce-IsNoticed, point_at_found-log,
}

abbrev pub is_none {ℓ} : {A : Type ℓ} → Option A → Bool
is_none none = true
is_none (some a) = false

module _ {F : Type 0} where
  -- Whether a phase with met conditions is due to fire.
  abbrev pub is_due : Evaluation F → Phase → Bool
  is_due v idle = false
  is_due v pending = has_passed v.now (sustained_duration v.rule) v.state.first_met_at
  is_due v firing = false
  is_due v notified = false
  is_due v acknowledged = false
  is_due v resolved = not (is_cooling v.now v.rule.cooldown_sec v.state.last_resolved_at)

  abbrev pub candidate : Evaluation F → Alert F
  candidate v = new_alert v.rule v.device (build_alert_message v.rule v.device v.results)

  -- Whether a row goes in: no active alert is found or stands in the way, no checker suppresses, and
  -- the insertion does not fail.
  abbrev pub is_free : Wiring → Evaluation F → Engine F → Bool
  is_free w v e =
      is_none (find_active_alert_for_rule v.faults.find_active v.rule v.device e)
      && (is_none (check_suppression_for_device w.checkers v.device v.rule)
          && (not v.faults.create
              && not (leb 1 (rivals (candidate v) (some v.rule.id) e.store.alerts))))

  pub alerts-upsert_state :
      (v : Evaluation F) (st : AlertRuleState F) (e : Engine F)
      → (upsert_state v.faults v.rule v.device st e).store.alerts ≡ e.store.alerts
  alerts-upsert_state v st e =
      ap (λ l. l.alerts) (log_of-upsert_state v.faults v.rule v.device st e)

  after_create-alerts :
      (w : Wiring) (v : Evaluation F) (made : Created F × Engine F)
      → (after_create w v made).store.alerts ≡ made.1.store.alerts
  unfolding after_create
  after_create-alerts w v (row a, e) =
      alerts-upsert_state v _ (announce w v.faults v.rule a e)
      ∙ elim (announce-IsNoticed w v.faults v.rule a e) [
        | inl h ↦ ap (λ l. l.alerts) h
        | inr (room, h) ↦ ap (λ l. l.alerts) h
      ]
  after_create-alerts w v (duplicate, e) =
      ap (λ l. l.alerts)
        (point_at_found-log v (find_active_alert_for_rule v.faults.find_again v.rule v.device e) e)
  after_create-alerts w v (failed, e) = refl

  length-create :
      (f : Faults) (a : Alert F) (e : Engine F)
      → length (create f a e).1.store.alerts
        ≡ length e.store.alerts
          + one_if (not f.create && not (leb 1 (rivals a a.rule_id e.store.alerts)))
  unfolding create create_alert
  length-create f a e = elim (Bool-cases f.create) [
    | inl h ↦ rw h (omega arith)
    | inr h ↦ elim (Bool-cases (leb 1 (rivals a a.rule_id e.store.alerts))) [
      | inl g ↦ rw h (rw g (omega arith))
      | inr g ↦ rw h (rw g (length-append e.store.alerts (record a { id = e.store.next_id } ∷ [])))
    ]
  ]

  unless_suppressed-length :
      (w : Wiring) (v : Evaluation F) (o : Option SuppressedAlert) (e : Engine F)
      → length (unless_suppressed w v o e).store.alerts
        ≡ length e.store.alerts
          + one_if (
              is_none o
              && (not v.faults.create
                  && not (leb 1 (rivals (candidate v) (some v.rule.id) e.store.alerts))))
  unfolding unless_suppressed
  unless_suppressed-length w v (some a) e =
      ap (λ l. length l.alerts)
        (log_of-upsert_state v.faults v.rule v.device _ _
          ∙ log_of-record_suppressed_alert w v.faults a e)
      ∙ omega arith
  unless_suppressed-length w v none e =
      ap length (after_create-alerts w v (create v.faults (candidate v) e))
      ∙ length-create v.faults (candidate v) e

  unless_active-length :
      (w : Wiring) (v : Evaluation F) (o : Option (Alert F)) (e : Engine F)
      → length (unless_active w v o e).store.alerts
        ≡ length e.store.alerts
          + one_if (
              is_none o
              && (is_none (check_suppression_for_device w.checkers v.device v.rule)
                  && (not v.faults.create
                      && not (leb 1 (rivals (candidate v) (some v.rule.id) e.store.alerts)))))
  unfolding unless_active point_at
  unless_active-length w v none e =
      unless_suppressed-length w v (check_suppression_for_device w.checkers v.device v.rule) e
  unless_active-length w v (some a) e = ap length (alerts-upsert_state v _ e) ∙ omega arith

  fire_alert-length :
      (w : Wiring) (v : Evaluation F) (e : Engine F)
      → length (fire_alert w v e).store.alerts ≡ length e.store.alerts + one_if (is_free w v e)
  unfolding fire_alert
  fire_alert-length w v e =
      unless_active-length w v (find_active_alert_for_rule v.faults.find_active v.rule v.device e) e

  still_pending-length :
      (same : ConditionResult F → ConditionResult F → Bool) (v : Evaluation F) (e : Engine F)
      → length (still_pending same v e).store.alerts ≡ length e.store.alerts
  unfolding still_pending
  still_pending-length same v e =
      elim (Bool-cases (snapshots_equal same v.state.condition_snapshot (typed v.results))) [
        | inl h ↦ rw h refl
        | inr h ↦ rw h (ap length (alerts-upsert_state v _ e))
      ]

  -- A change that leaves the number of alerts.
  pub none_opened :
      (v : Evaluation F) (st : AlertRuleState F) (e : Engine F)
      → length (upsert_state v.faults v.rule v.device st e).store.alerts ≡ length e.store.alerts + 0
  none_opened v st e = ap length (alerts-upsert_state v st e) ∙ omega arith

  pub handle_condition_met-length :
      (same : ConditionResult F → ConditionResult F → Bool) (w : Wiring) (v : Evaluation F)
      (p : Phase) (e : Engine F)
      → length (handle_condition_met same w v p e).store.alerts
        ≡ length e.store.alerts + one_if (is_due v p && is_free w v e)
  unfolding handle_condition_met start_pending on_pending on_resolved touch
  handle_condition_met-length same w v idle e = none_opened v _ e
  handle_condition_met-length same w v pending e =
      elim (Bool-cases (has_passed v.now (sustained_duration v.rule) v.state.first_met_at)) [
        | inl h ↦ rw h (fire_alert-length w v e)
        | inr h ↦ rw h (still_pending-length same v e ∙ omega arith)
      ]
  handle_condition_met-length same w v firing e = none_opened v _ e
  handle_condition_met-length same w v notified e = none_opened v _ e
  handle_condition_met-length same w v acknowledged e = none_opened v _ e
  handle_condition_met-length same w v resolved e =
      elim (Bool-cases (is_cooling v.now v.rule.cooldown_sec v.state.last_resolved_at)) [
        | inl h ↦ rw h (omega arith)
        | inr h ↦ rw h (fire_alert-length w v e)
      ]
