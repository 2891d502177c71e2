-- ===== src/Engine/Log/Evaluating.antt =====
-- engine/alert.go: what an evaluation of a rule does to the alerts and the queue, the log allows.
use rayavriti_netmonitor.Common.{
  ℕ, ◌≡◌, refl, sym, subst, Bool, true, false, not, Option, none, some, Bool-cases, inl, inr,
  if◌then◌else◌, ◌∙◌,
}
use rayavriti_netmonitor.Engine.Types.{
  Alert, AlertRuleState, ConditionResult, Phase, idle, pending, firing, notified, acknowledged,
  resolved, typed,
}
use rayavriti_netmonitor.Engine.Suppression.{SuppressedAlert, check_suppression_for_device}
use rayavriti_netmonitor.Engine.Store.{Store, update_alert_status, with_status, is_unique_among}
use rayavriti_netmonitor.Engine.Effects.{
  Wiring, alert_resolved, Engine, upsert_state, create, new_alert, find_active_alert_for_rule,
  actor, build_alert_message, sustained_duration,
}
use rayavriti_netmonitor.Engine.Firing.{
  Evaluation, point_at, unless_suppressed, unless_active, fire_alert,
}
use rayavriti_netmonitor.Engine.Alerts.{
  touch, has_passed, is_cooling, still_pending, start_pending, on_pending, on_resolved,
  handle_condition_met, after_update, resolve_alert, auto_resolve, on_cleared,
  handle_condition_cleared, handle, snapshots_equal,
}
use rayavriti_netmonitor.Engine.Log.{log_of, close, LogSteps, here, next, append-LogSteps}
use rayavriti_netmonitor.Engine.Log.Announcing.{
  quiet, log_of-upsert_state, log_of-record_suppressed_alert, log_of-record_history,
  log_of-broadcast, create-IsMade, after_create-LogSteps,
}

-- A change of the engine that the log allows.
abbrev pub IsLogged : {F : Type 0} → (Engine F → Engine F) → Type 0
IsLogged {F} change = (e : Engine F) → LogSteps (log_of e) (log_of (change e))

-- Either way of a test.
pub if-IsLogged :
    {F : Type 0} (b : Bool) (f g : Engine F → Engine F) (e : Engine F)
    → LogSteps (log_of e) (log_of (f e))
    → LogSteps (log_of e) (log_of (g e))
    → LogSteps (log_of e) (log_of (if b then f e else g e))
if-IsLogged true f g e hf hg = hf
if-IsLogged false f g e hf hg = hg

module _ {F : Type 0} (w : Wiring) (v : Evaluation F) where
  upsert-IsLogged : (st : AlertRuleState F) → IsLogged (upsert_state v.faults v.rule v.device st)
  upsert-IsLogged st e = quiet (log_of-upsert_state v.faults v.rule v.device st e)

  unless_suppressed-IsLogged : (o : Option SuppressedAlert) → IsLogged (unless_suppressed w v o)
  unfolding unless_suppressed
  unless_suppressed-IsLogged none e =
      let a = new_alert v.rule v.device (build_alert_message v.rule v.device v.results) in
      after_create-LogSteps w v _ e (create v.faults a e) (create-IsMade v.faults a e)
  unless_suppressed-IsLogged (some a) e = quiet (
      log_of-upsert_state v.faults v.rule v.device _ _
      ∙ log_of-record_suppressed_alert w v.faults a e)

  unless_active-IsLogged : (o : Option (Alert F)) → IsLogged (unless_active w v o)
  unfolding unless_active point_at
  unless_active-IsLogged none =
      unless_suppressed-IsLogged (check_suppression_for_device w.checkers v.device v.rule)
  unless_active-IsLogged (some a) = upsert-IsLogged _

  fire_alert-IsLogged : IsLogged (fire_alert w v)
  unfolding fire_alert
  fire_alert-IsLogged e =
      unless_active-IsLogged (find_active_alert_for_rule v.faults.find_active v.rule v.device e) e

  module _ (same : ConditionResult F → ConditionResult F → Bool) where
    still_pending-IsLogged : IsLogged (still_pending same v)
    unfolding still_pending
    still_pending-IsLogged e =
        if-IsLogged (snapshots_equal same v.state.condition_snapshot (typed v.results)) (λ d. d)
          (upsert_state v.faults v.rule v.device _) e here (upsert-IsLogged _ e)

    pub handle_condition_met-IsLogged : (p : Phase) → IsLogged (handle_condition_met same w v p)
    unfolding handle_condition_met start_pending on_pending on_resolved touch
    handle_condition_met-IsLogged idle e = upsert-IsLogged _ e
    handle_condition_met-IsLogged pending e =
        if-IsLogged (has_passed v.now (sustained_duration v.rule) v.state.first_met_at)
          (fire_alert w v) (still_pending same v) e (fire_alert-IsLogged e)
          (still_pending-IsLogged e)
    handle_condition_met-IsLogged resolved e =
        if-IsLogged (is_cooling v.now v.rule.cooldown_sec v.state.last_resolved_at) (λ d. d)
          (fire_alert w v) e here (fire_alert-IsLogged e)
    handle_condition_met-IsLogged firing e = upsert-IsLogged _ e
    handle_condition_met-IsLogged notified e = upsert-IsLogged _ e
    handle_condition_met-IsLogged acknowledged e = upsert-IsLogged _ e

  after_update-IsLogged :
      (alert : ℕ) (o : Option (Store F)) (e : Engine F)
      → ((s : Store F)
          → o ≡ some s
          → s ≡ record e.store { alerts = with_status alert "resolved" e.store.alerts })
      → LogSteps (log_of e) (log_of (after_update w v alert o e))
  after_update-IsLogged alert none e h = here
  after_update-IsLogged alert (some s) e h =
      subst (LogSteps (log_of e))
        (sym (
          log_of-broadcast w (alert_resolved alert v.device.id) _
          ∙ log_of-record_history v.faults alert v.rule.id "auto_resolved" actor
              (record e { store = s })))
        (rw (h s refl) (next here (close (log_of e) alert)))

  pub resolve_alert-IsLogged : (o : Option ℕ) → IsLogged (resolve_alert w v o)
  unfolding resolve_alert update_alert_status
  resolve_alert-IsLogged none e = here
  resolve_alert-IsLogged (some alert) e =
      let alerts = with_status alert "resolved" e.store.alerts in
      after_update-IsLogged alert _ e (elim (Bool-cases v.faults.update_status) [
        | inl h ↦ rw h (λ s f. cc)
        | inr h ↦ elim (Bool-cases (is_unique_among alerts alerts)) [
          | inl g ↦ rw h (rw g (λ s f. cc))
          | inr g ↦ rw h (rw g (λ s f. cc))
        ]
      ])

  auto_resolve-IsLogged : IsLogged (auto_resolve w v)
  unfolding auto_resolve
  auto_resolve-IsLogged e =
      append-LogSteps (resolve_alert-IsLogged v.state.active_alert_id e)
        (quiet (log_of-upsert_state v.faults v.rule v.device _ _))

  on_cleared-IsLogged : IsLogged (on_cleared w v)
  unfolding on_cleared touch
  on_cleared-IsLogged e =
      if-IsLogged (not v.rule.auto_resolve) (upsert_state v.faults v.rule v.device _)
        (auto_resolve w v) e (upsert-IsLogged _ e) (auto_resolve-IsLogged e)

  handle_condition_cleared-IsLogged : (p : Phase) → IsLogged (handle_condition_cleared w v p)
  unfolding handle_condition_cleared
  handle_condition_cleared-IsLogged idle e = here
  handle_condition_cleared-IsLogged pending e = upsert-IsLogged _ e
  handle_condition_cleared-IsLogged resolved e = here
  handle_condition_cleared-IsLogged firing e = on_cleared-IsLogged e
  handle_condition_cleared-IsLogged notified e = on_cleared-IsLogged e
  handle_condition_cleared-IsLogged acknowledged e = on_cleared-IsLogged e

  pub handle-IsLogged :
      (same : ConditionResult F → ConditionResult F → Bool) (met : Bool)
      → IsLogged (handle same w v met)
  unfolding handle
  handle-IsLogged same met e =
      if-IsLogged met (handle_condition_met same w v v.state.state)
        (handle_condition_cleared w v v.state.state) e
        (handle_condition_met-IsLogged same v.state.state e)
        (handle_condition_cleared-IsLogged v.state.state e)
