-- ===== src/Engine/Alerts.antt =====
-- engine/alert.go: how a rule on a device goes from met conditions to an alert and back. A rule is
-- evaluated under the lock of its key, so one evaluation is one step.
use rayavriti_netmonitor.Common.{
  ℕ, ◌+◌, ◌*◌, Bool, true, false, not, ◌&&◌, String, str_eq, Option, none, some, List, [], ◌∷◌,
  if◌then◌else◌, ltb, leb,
}
use rayavriti_netmonitor.Engine.Types.{
  Condition, AlertRule, MonitoredDevice, MetricReading, AnomalyBaseline, ConditionResult, Phase,
  idle, pending, firing, notified, acknowledged, resolved, Snapshot, absent, typed, decoded,
  AlertRuleState,
}
use rayavriti_netmonitor.Engine.Conditions.{Floats, evaluate_condition}
use rayavriti_netmonitor.Engine.Store.{Store, update_alert_status, get_alert_rule_state}
use rayavriti_netmonitor.Engine.Effects.{
  Faults, Wiring, alert_resolved, Engine, second, actor, sustained_duration, idle_state,
  upsert_state, record_history, broadcast,
}
use rayavriti_netmonitor.Engine.Firing.{Evaluation, fire_alert}

-- What an evaluation reads: the clock when the conditions are evaluated and afterwards, the baselines
-- by device and field, and the calls that fail.
pub record Moment (F : Type 0) : Type 0 where
  pub clock : ℕ
  pub now : ℕ
  pub baseline : ℕ → String → Option (AnomalyBaseline F)
  pub faults : Faults

-- Whether a time is given and at least `duration` seconds have passed since.
abbrev pub has_passed : ℕ → ℕ → Option ℕ → Bool
has_passed now duration none = false
has_passed now duration (some t) = leb (t + duration * second) now

abbrev pub is_cooling : ℕ → ℕ → Option ℕ → Bool
is_cooling now cooldown none = false
is_cooling now cooldown (some t) = ltb now (t + cooldown * second)

abbrev pub unless_failed {ℓ} : {A : Type ℓ} → Bool → Option A → Option A
unless_failed fails o = if fails then none else o

module _ {F : Type 0} where
  unfoldable pub is_typed_as :
      (ConditionResult F → ConditionResult F → Bool)
      → List (ConditionResult F)
      → List (ConditionResult F)
      → Bool
  is_typed_as same [] [] = true
  is_typed_as same [] (b ∷ bs) = false
  is_typed_as same (a ∷ as') [] = false
  is_typed_as same (a ∷ as') (b ∷ bs) = same a b && is_typed_as same as' bs

  -- The equality of ConditionResult is a parameter, as that of float64 is.
  unfoldable pub snapshots_equal :
      (ConditionResult F → ConditionResult F → Bool) → Snapshot F → Snapshot F → Bool
  unfolding is_typed_as
  snapshots_equal same (typed as') (typed bs) = is_typed_as same as' bs
  snapshots_equal same (typed as') absent = false
  snapshots_equal same (typed as') (decoded bs) = false
  snapshots_equal same absent b = false
  snapshots_equal same (decoded as') b = false

  -- The state with a new time of evaluation.
  unfoldable pub touch : Evaluation F → Engine F → Engine F
  touch v =
      upsert_state v.faults v.rule v.device (record v.state { last_evaluated_at = some v.now })

  unfoldable pub still_pending :
      (ConditionResult F → ConditionResult F → Bool) → Evaluation F → Engine F → Engine F
  still_pending same v e =
      if snapshots_equal same v.state.condition_snapshot (typed v.results)
      then e
      else upsert_state v.faults v.rule v.device
          (record v.state { last_evaluated_at = some v.now; condition_snapshot = typed v.results })
          e

  unfoldable pub start_pending : Evaluation F → Engine F → Engine F
  start_pending v = upsert_state v.faults v.rule v.device (record idle_state {
    state = pending;
    first_met_at = some v.now;
    last_evaluated_at = some v.now;
    condition_snapshot = typed v.results;
  })

  unfoldable pub on_pending :
      (ConditionResult F → ConditionResult F → Bool) → Wiring → Evaluation F → Engine F → Engine F
  on_pending same w v e =
      if has_passed v.now (sustained_duration v.rule) v.state.first_met_at
      then fire_alert w v e
      else still_pending same v e

  unfoldable pub on_resolved : Wiring → Evaluation F → Engine F → Engine F
  on_resolved w v e =
      if is_cooling v.now v.rule.cooldown_sec v.state.last_resolved_at then e else fire_alert w v e

  unfoldable pub handle_condition_met :
      (ConditionResult F → ConditionResult F → Bool)
      → Wiring
      → Evaluation F
      → Phase
      → Engine F
      → Engine F
  handle_condition_met same w v idle e = start_pending v e
  handle_condition_met same w v pending e = on_pending same w v e
  handle_condition_met same w v resolved e = on_resolved w v e
  handle_condition_met same w v firing e = touch v e
  handle_condition_met same w v notified e = touch v e
  handle_condition_met same w v acknowledged e = touch v e

  abbrev pub after_update : Wiring → Evaluation F → ℕ → Option (Store F) → Engine F → Engine F
  after_update w v alert none e = e
  after_update w v alert (some s) e =
      broadcast w (alert_resolved alert v.device.id)
        (record_history v.faults alert v.rule.id "auto_resolved" actor (record e { store = s }))

  unfoldable pub resolve_alert : Wiring → Evaluation F → Option ℕ → Engine F → Engine F
  resolve_alert w v none e = e
  resolve_alert w v (some alert) e =
      after_update w v alert
        (unless_failed v.faults.update_status (update_alert_status alert "resolved" e.store)) e

  unfoldable pub auto_resolve : Wiring → Evaluation F → Engine F → Engine F
  auto_resolve w v e =
      upsert_state v.faults v.rule v.device
        (record idle_state {
          state = resolved;
          last_evaluated_at = some v.now;
          last_resolved_at = some v.now;
        })
        (resolve_alert w v v.state.active_alert_id e)

  unfoldable pub on_cleared : Wiring → Evaluation F → Engine F → Engine F
  on_cleared w v e = if not v.rule.auto_resolve then touch v e else auto_resolve w v e

  unfoldable pub handle_condition_cleared : Wiring → Evaluation F → Phase → Engine F → Engine F
  handle_condition_cleared w v idle e = e
  handle_condition_cleared w v pending e =
      upsert_state v.faults v.rule v.device (record idle_state { last_evaluated_at = some v.now }) e
  handle_condition_cleared w v resolved e = e
  handle_condition_cleared w v firing e = on_cleared w v e
  handle_condition_cleared w v notified e = on_cleared w v e
  handle_condition_cleared w v acknowledged e = on_cleared w v e

  abbrev pub state_or_idle : Option (AlertRuleState F) → AlertRuleState F
  state_or_idle none = idle_state
  state_or_idle (some st) = st

  -- A state that cannot be read acts as a missing one.
  unfoldable pub current_state : Faults → AlertRule → MonitoredDevice → Engine F → AlertRuleState F
  current_state f rule device e =
      state_or_idle (unless_failed f.get_state (get_alert_rule_state rule.id device.id e.store))

  -- Only anomaly conditions read the baseline.
  unfoldable pub evaluate_all :
      Floats F
      → Moment F
      → MonitoredDevice
      → MetricReading F
      → String
      → List Condition
      → List (ConditionResult F)
  evaluate_all fl t device m previous [] = []
  evaluate_all fl t device m previous (c ∷ conditions) =
      evaluate_condition fl t.clock c m previous
        (if str_eq c.type "anomaly" then t.baseline device.id c.metric_field else none)
      ∷ evaluate_all fl t device m previous conditions

  unfoldable pub handle :
      (ConditionResult F → ConditionResult F → Bool)
      → Wiring
      → Evaluation F
      → Bool
      → Engine F
      → Engine F
  handle same w v met e =
      if met
      then handle_condition_met same w v v.state.state e
      else handle_condition_cleared w v v.state.state e
