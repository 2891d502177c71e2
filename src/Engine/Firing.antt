-- ===== src/Engine/Firing.antt =====
-- engine/alert.go, fireAlert: a due rule makes an alert, unless one is active or it is suppressed.
use rayavriti_netmonitor.Common.{ℕ, Option, none, some, List}
use rayavriti_netmonitor.Engine.Types.{
  AlertRule, MonitoredDevice, ConditionResult, idle, firing, notified, typed, AlertRuleState, Alert,
}
use rayavriti_netmonitor.Engine.Suppression.{SuppressedAlert, check_suppression_for_device}
use rayavriti_netmonitor.Engine.Effects.{
  Faults, Wiring, alert_triggered, Engine, actor, build_alert_message, upsert_state, record_history,
  find_active_alert_for_rule, broadcast, send_notifications, record_suppressed_alert, Created, row,
  duplicate, failed, create, new_alert,
}

-- What an evaluation of a rule on a device goes on with.
pub record Evaluation (F : Type 0) : Type 0 where
  pub faults : Faults
  pub rule : AlertRule
  pub device : MonitoredDevice
  pub state : AlertRuleState F
  pub now : ℕ
  pub results : List (ConditionResult F)

module _ {F : Type 0} where
  -- The durable state points at an alert that is active already.
  unfoldable pub point_at : Evaluation F → Alert F → Engine F → Engine F
  point_at v a =
      upsert_state v.faults v.rule v.device
        (record v.state { last_fired_at = some v.now; active_alert_id = some a.id; state = firing })

  abbrev pub point_at_found : Evaluation F → Option (Alert F) → Engine F → Engine F
  point_at_found v none e = e
  point_at_found v (some a) e = point_at v a e

  abbrev pub notified_state : Evaluation F → Alert F → AlertRuleState F
  notified_state v a = record {
    state = notified;
    first_met_at = v.state.first_met_at;
    last_evaluated_at = some v.now;
    last_fired_at = some v.now;
    last_resolved_at = none;
    active_alert_id = some a.id;
    condition_snapshot = typed v.results;
  }

  unfoldable pub announce : Wiring → Faults → AlertRule → Alert F → Engine F → Engine F
  unfolding record_history broadcast send_notifications
  announce w f rule a e =
      send_notifications w rule a
        (broadcast w (alert_triggered a) (record_history f a.id rule.id "fired" actor e))

  unfoldable pub after_create : Wiring → Evaluation F → Created F × Engine F → Engine F
  unfolding announce
  after_create w v (row a, e) =
      upsert_state v.faults v.rule v.device (notified_state v a) (announce w v.faults v.rule a e)
  after_create w v (duplicate, e) =
      point_at_found v (find_active_alert_for_rule v.faults.find_again v.rule v.device e) e
  after_create w v (failed, e) = e

  unfoldable pub unless_suppressed :
      Wiring → Evaluation F → Option SuppressedAlert → Engine F → Engine F
  unless_suppressed w v none e = after_create w v (
      create v.faults (new_alert v.rule v.device (build_alert_message v.rule v.device v.results)) e)
  unless_suppressed w v (some a) e =
      upsert_state v.faults v.rule v.device
        (record v.state { last_evaluated_at = some v.now; state = idle })
        (record_suppressed_alert w v.faults a e)

  unfoldable pub unless_active : Wiring → Evaluation F → Option (Alert F) → Engine F → Engine F
  unless_active w v none e =
      unless_suppressed w v (check_suppression_for_device w.checkers v.device v.rule) e
  unless_active w v (some a) e = point_at v a e

  unfoldable pub fire_alert : Wiring → Evaluation F → Engine F → Engine F
  fire_alert w v e =
      unless_active w v (find_active_alert_for_rule v.faults.find_active v.rule v.device e) e
