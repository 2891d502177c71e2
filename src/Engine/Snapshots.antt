-- ===== src/Engine/Snapshots.antt =====
-- engine/alert.go, snapshotsEqual: whether a pending state is written again.
use rayavriti_netmonitor.Common.{◌≡◌, refl, ap, ◌∙◌, Bool, true, false, Option, none, some, List}
use rayavriti_netmonitor.Common.Assoc.{lookup, pair_eq}
use rayavriti_netmonitor.Engine.Types.{
  AlertRuleState, ConditionResult, Snapshot, absent, typed, decoded,
}
use rayavriti_netmonitor.Engine.Store.{read_back, with_snapshot_read, get_alert_rule_state}
use rayavriti_netmonitor.Engine.Effects.{Engine, upsert_state}
use rayavriti_netmonitor.Engine.Firing.{Evaluation}
use rayavriti_netmonitor.Engine.Alerts.{
  unless_failed, state_or_idle, current_state, still_pending, snapshots_equal,
}

module _ {F : Type 0} (same : ConditionResult F → ConditionResult F → Bool) where
  snapshots_equal-read_back :
      (s : Snapshot F) (results : List (ConditionResult F))
      → snapshots_equal same (read_back s) (typed results) ≡ false
  unfolding snapshots_equal
  snapshots_equal-read_back absent results = refl
  snapshots_equal-read_back (typed before) results = refl
  snapshots_equal-read_back (decoded before) results = refl

  snapshots_equal-state_or_idle :
      (fails : Bool) (o : Option (AlertRuleState F)) (results : List (ConditionResult F))
      → snapshots_equal same
          (state_or_idle (unless_failed fails (with_snapshot_read o))).condition_snapshot
          (typed results)
        ≡ false
  unfolding snapshots_equal
  snapshots_equal-state_or_idle true o results = refl
  snapshots_equal-state_or_idle false none results = refl
  snapshots_equal-state_or_idle false (some st) results =
      snapshots_equal-read_back st.condition_snapshot results

  -- While a rule is pending and not due, every evaluation writes its state again, whether or not the
  -- results of its conditions have changed: the snapshot that is read from the database is equal to
  -- none that the engine makes.
  pub still_pending-current_state :
      (v : Evaluation F) (e : Engine F)
      → v.state ≡ current_state v.faults v.rule v.device e
      → still_pending same v e
        ≡ upsert_state v.faults v.rule v.device
            (record v.state {
              last_evaluated_at = some v.now;
              condition_snapshot = typed v.results;
            })
            e
  unfolding still_pending current_state get_alert_rule_state
  still_pending-current_state v e read =
      let differs : snapshots_equal same v.state.condition_snapshot (typed v.results) ≡ false =
        ap (λ st. snapshots_equal same st.condition_snapshot (typed v.results)) read
        ∙ snapshots_equal-state_or_idle v.faults.get_state
            (lookup (v.rule.id, v.device.id) e.store.rule_states) v.results in
      rw differs refl
