-- ===== src/Engine/Silent.antt =====
-- engine/alert.go with handlers/alerts.go: a rule that is not resolved automatically, once it has fired.
use rayavriti_netmonitor.Common.{
  ℕ, ◌≡◌, refl, sym, subst, ap, Bool, true, false, not, ◌==◌, some, String, List, [], ◌∷◌, arith,
  count_if, Bool-cases, inl, inr, if◌then◌else◌, ◌∙◌, All, All-select,
}
use rayavriti_netmonitor.Common.Assoc.{lookup, lookup-insert_self, pair_eq}
use rayavriti_netmonitor.Engine.Types.{
  AlertRule, MonitoredDevice, MetricReading, ConditionResult, AlertRuleState, Alert, Phase, idle,
  pending, firing, notified, acknowledged, resolved,
}
use rayavriti_netmonitor.Engine.Conditions.{Floats}
use rayavriti_netmonitor.Engine.Store.{
  update_alert_status, delete_alert, get_alert_rule_state, upsert_alert_rule_state, with_status,
  is_unique_among,
}
use rayavriti_netmonitor.Engine.Effects.{Faults, Wiring, Engine, upsert_state, rule_triggered}
use rayavriti_netmonitor.Engine.Firing.{Evaluation}
use rayavriti_netmonitor.Engine.Alerts.{
  Moment, touch, handle_condition_met, on_cleared, handle_condition_cleared, handle, current_state,
}
use rayavriti_netmonitor.Engine.Rules.{met, evaluation_of, evaluate_rule}
use rayavriti_netmonitor.Engine.Opening.{is_due, alerts-upsert_state}
use rayavriti_netmonitor.Engine.System.{set_status}

abbrev pub is_held : Phase → Bool
is_held idle = false
is_held pending = false
is_held firing = true
is_held notified = true
is_held acknowledged = true
is_held resolved = false

-- What happens to a rule and a device: an evaluation, or what an operator does with an alert.
pub data Act (F : Type 0) : Type 0 where
  evaluated : Moment F → MetricReading F → String → Act F
  status_set : ℕ → String → Act F
  deleted : ℕ → Act F

abbrev pub reads : {F : Type 0} → Act F → Bool
reads (evaluated t m previous) = not t.faults.get_state
reads (status_set id status) = true
reads (deleted id) = true

unless_not : {F : Type 0} (b : Bool) (d c : Engine F) → b ≡ false → (if not b then d else c) ≡ d
unless_not b d c h = rw h refl

module _ {F : Type 0} where
  -- No alert has an id that was not there: what holds of every id before holds of every id after.
  abbrev pub HasNoNew : List (Alert F) → List (Alert F) → Type 1
  HasNoNew before after = (P : ℕ → Type 0) → All (λ a. P a.id) before → All (λ a. P a.id) after

  with_status-HasNoNew :
      (id : ℕ) (status : String) (alerts : List (Alert F))
      → HasNoNew alerts (with_status id status alerts)
  with_status-HasNoNew id status [] P all = tt
  with_status-HasNoNew id status (a ∷ alerts) P (p, all) = elim (Bool-cases (a.id == id)) [
    | inl h ↦ rw h (p, with_status-HasNoNew id status alerts P all)
    | inr h ↦ rw h (p, with_status-HasNoNew id status alerts P all)
  ]

module _ {F : Type 0} (fl : Floats F) (same : ConditionResult F → ConditionResult F → Bool)
    (w : Wiring) (rule : AlertRule) (device : MonitoredDevice) where
  unfoldable pub act : Act F → Engine F → Engine F
  act (evaluated t m previous) e = evaluate_rule fl same w t rule device m previous e
  act (status_set id status) e = set_status id status e
  act (deleted id) e = record e { store = delete_alert id e.store }

  unfoldable pub act_all : List (Act F) → Engine F → Engine F
  act_all [] e = e
  act_all (a ∷ acts) e = act_all acts (act a e)

  -- The stored state of the rule and the device is that of an alert that has fired.
  abbrev pub IsHeld : Engine F → Type 0
  IsHeld e =
      (st : AlertRuleState F) × (lookup (rule.id, device.id) e.store.rule_states ≡ some st)
      × (is_held st.state ≡ true)

  current_state-held :
      (f : Faults) (e : Engine F)
      → f.get_state ≡ false
      → IsHeld e
      → is_held (current_state f rule device e).state ≡ true
  unfolding current_state get_alert_rule_state
  current_state-held f e ok (st, found, held) = rw ok (rw found held)

  upsert_state-IsHeld :
      (f : Faults) (st : AlertRuleState F) (e : Engine F)
      → is_held st.state ≡ true
      → IsHeld e
      → IsHeld (upsert_state f rule device st e)
  unfolding upsert_state upsert_alert_rule_state
  upsert_state-IsHeld f st e held before = elim (Bool-cases f.upsert) [
    | inl h ↦ rw h before
    | inr h ↦ rw h (st, lookup-insert_self (rule.id, device.id) st e.store.rule_states, held)
  ]

  is_due-held : (v : Evaluation F) (p : Phase) → is_held p ≡ true → is_due v p ≡ false
  is_due-held v idle h = cc
  is_due-held v pending h = cc
  is_due-held v firing h = refl
  is_due-held v notified h = refl
  is_due-held v acknowledged h = refl
  is_due-held v resolved h = cc

  module _ (v : Evaluation F) where
    handle_condition_met-held :
        (p : Phase) (e : Engine F)
        → is_held p ≡ true
        → handle_condition_met same w v p e ≡ touch v e
    unfolding handle_condition_met
    handle_condition_met-held idle e h = cc
    handle_condition_met-held pending e h = cc
    handle_condition_met-held firing e h = refl
    handle_condition_met-held notified e h = refl
    handle_condition_met-held acknowledged e h = refl
    handle_condition_met-held resolved e h = cc

    handle_condition_cleared-held :
        (p : Phase) (e : Engine F)
        → v.rule.auto_resolve ≡ false
        → is_held p ≡ true
        → handle_condition_cleared w v p e ≡ touch v e
    unfolding handle_condition_cleared on_cleared
    handle_condition_cleared-held idle e manual h = cc
    handle_condition_cleared-held pending e manual h = cc
    handle_condition_cleared-held firing e manual h = unless_not v.rule.auto_resolve _ _ manual
    handle_condition_cleared-held notified e manual h = unless_not v.rule.auto_resolve _ _ manual
    handle_condition_cleared-held acknowledged e manual h =
        unless_not v.rule.auto_resolve _ _ manual
    handle_condition_cleared-held resolved e manual h = cc

    handle-held :
        (b : Bool) (e : Engine F)
        → v.rule.auto_resolve ≡ false
        → is_held v.state.state ≡ true
        → handle same w v b e ≡ touch v e
    unfolding handle
    handle-held true e manual h = handle_condition_met-held v.state.state e h
    handle-held false e manual h = handle_condition_cleared-held v.state.state e manual h

  module _ (manual : rule.auto_resolve ≡ false) where
    evaluate_rule-IsHeld :
        (t : Moment F) (m : MetricReading F) (previous : String) (e : Engine F)
        → t.faults.get_state ≡ false
        → IsHeld e
        → IsHeld (evaluate_rule fl same w t rule device m previous e)
          × ((evaluate_rule fl same w t rule device m previous e).store.alerts ≡ e.store.alerts)
    unfolding evaluate_rule touch
    evaluate_rule-IsHeld t m previous e ok before =
        let v = evaluation_of fl same w t rule device m previous e in
        let held = current_state-held t.faults e ok before in
        let same_as = handle-held v (rule_triggered rule (count_if met v.results)) e manual held in
        (
          subst IsHeld (sym same_as) (upsert_state-IsHeld t.faults _ e held before),
          ap (λ d. d.store.alerts) same_as ∙ alerts-upsert_state v _ e,
        )

    act-IsHeld :
        (a : Act F) (e : Engine F)
        → reads a ≡ true
        → IsHeld e
        → IsHeld (act a e) × HasNoNew e.store.alerts (act a e).store.alerts
    unfolding act delete_alert update_alert_status
    act-IsHeld (evaluated t m previous) e ok before =
        let (held, kept) = evaluate_rule-IsHeld t m previous e (ground (arith, ok)) before in
        (held, λ P all. subst (All (λ a. P a.id)) (sym kept) all)
    act-IsHeld (status_set id status) e ok before =
        let alerts = with_status id status e.store.alerts in
        elim (Bool-cases (is_unique_among alerts alerts)) [
          | inl h ↦ rw h (before, with_status-HasNoNew id status e.store.alerts)
          | inr h ↦ rw h (before, λ P all. all)
        ]
    act-IsHeld (deleted id) e ok before =
        (before, λ P all. All-select (λ a. P a.id) (λ a. not (a.id == id)) e.store.alerts all)

    -- A rule that is not resolved automatically fires once on metrics: when its state on a device is
    -- that of an alert that has fired, and the state can be read each time, then after any evaluations
    -- of the rule on metrics of the device, mixed with what an operator does with the alerts, resolving
    -- or deleting them included, every alert has an id that was in the table before. The loop that looks
    -- for absent metrics is not among these acts.
    pub act_all-silent :
        (acts : List (Act F)) (e : Engine F)
        → All (λ a. reads a ≡ true) acts
        → IsHeld e
        → HasNoNew e.store.alerts (act_all acts e).store.alerts
    unfolding act_all
    act_all-silent [] e ok before P all = all
    act_all-silent (a ∷ acts) e ok before P all =
        let (held, none_new) = act-IsHeld a e ok.0 before in
        act_all-silent acts (act a e) ok.1 held P (none_new P all)
