-- ===== src/Engine/Opening/Unsuppressed.antt =====
-- engine/alert.go with campus/topology.go and campus/maintenance.go: an alert that is opened has no
-- cause above its device and falls into no maintenance.
use rayavriti_netmonitor.Common.{
  ℕ, ◌<◌, ◌≡◌, refl, subst, Bool, true, false, if◌then◌else◌, Option, none, some, String, List, ◌∷◌,
  ◌++◌, length, arith, Bool-cases, and_left, and_right, inl, inr, ◌⊎◌, All, count_if,
}
use rayavriti_netmonitor.Campus.Topology.{
  DeviceNode, SuppressionResult, parent_down, not_suppressed, is_down, check_suppression,
}
use rayavriti_netmonitor.Campus.Topology.Suppression.{
  Ancestor, IsFailing, Verdict, check_suppression-Verdict,
}
use rayavriti_netmonitor.Campus.Maintenance.{
  MaintenanceWindow, World, Target, MaintenanceStatus, status_of, is_under_maintenance,
}
use rayavriti_netmonitor.Campus.Maintenance.Effective.{
  is_effective, IsFirst, is_under_maintenance-IsFirst,
}
use rayavriti_netmonitor.Engine.Types.{AlertRule, MonitoredDevice, ConditionResult, MetricReading}
use rayavriti_netmonitor.Engine.Conditions.{Floats}
use rayavriti_netmonitor.Engine.Suppression.{
  Checkers, SuppressedAlert, by_topology, by_maintenance, first_of, check_suppression_for_device,
}
use rayavriti_netmonitor.Engine.Effects.{Wiring, Engine, rule_triggered, find_active_alert_for_rule}
use rayavriti_netmonitor.Engine.Alerts.{Moment}
use rayavriti_netmonitor.Engine.Rules.{met, evaluation_of, evaluate_rule}
use rayavriti_netmonitor.Engine.Opening.{is_none, is_due}
use rayavriti_netmonitor.Engine.Opening.Exact.{opens, evaluate_rule-length}

is_none-first_of :
    (a b : Option SuppressedAlert) → is_none (first_of a b) ≡ true → (a ≡ none) × (b ≡ none)
is_none-first_of none none h = (refl, refl)
is_none-first_of none (some b) h = cc
is_none-first_of (some a) b h = cc

-- The checkers that the server sets up, on the rows of the devices and of the windows.
abbrev pub campus_checkers :
    (ℕ → Bool)
    → Bool
    → List DeviceNode
    → World
    → (MonitoredDevice → Target)
    → ℕ
    → List MaintenanceWindow
    → Checkers
campus_checkers fails windows_fail nodes world target now windows = record {
  suppression_checker = some (check_suppression fails nodes);
  maintenance_checker = some (λ device.
      if windows_fail then none else some (is_under_maintenance world (target device) now windows));
}

module _ (fails : ℕ → Bool) (windows_fail : Bool) (nodes : List DeviceNode) (world : World)
    (target : MonitoredDevice → Target) (now : ℕ) (windows : List MaintenanceWindow) where
  -- The devices above are not down, or a query of the walk up fails.
  abbrev pub IsUpOrUnknown : ℕ → Type 0
  IsUpOrUnknown device =
      IsFailing nodes fails ⊎ ((p : DeviceNode) → Ancestor nodes device p → is_down p ≡ false)

  by_topology-up :
      (device rule : ℕ) (o : Option SuppressionResult) (r : SuppressionResult)
      → o ≡ some r
      → Verdict nodes fails device r
      → by_topology device rule o ≡ none
      → IsUpOrUnknown device
  by_topology-up device rule none r e verdict h = cc
  by_topology-up device rule (some not_suppressed) (parent_down j q) e verdict h = cc
  by_topology-up device rule (some not_suppressed) not_suppressed e verdict h = verdict
  by_topology-up device rule (some (parent_down j q)) r e verdict h = cc

  -- What the status of the maintenance says of the windows.
  abbrev pub IsOpen : MonitoredDevice → Type 0
  IsOpen device =
      All (λ m. is_effective world (target device) now m ≡ false) windows
      ⊎ ((before : List MaintenanceWindow) × (m : MaintenanceWindow) × (after : List
            MaintenanceWindow)
          × (windows ≡ before ++ m ∷ after)
          × (m.suppress_alerts ≡ false)
          × (is_effective world (target device) now m ≡ true)
          × All (λ n. is_effective world (target device) now n ≡ false) before)

  by_maintenance-allows :
      (device rule : ℕ) (m : MaintenanceWindow)
      → by_maintenance device rule (some (status_of m)) ≡ none
      → m.suppress_alerts ≡ false
  by_maintenance-allows device rule m h = elim (Bool-cases m.suppress_alerts) [
    | inl e ↦ cc (e, h)
    | inr e ↦ e
  ]

  by_maintenance-IsOpen :
      (device : MonitoredDevice) (rule : ℕ) (s : MaintenanceStatus)
      → IsFirst world (target device) now windows s
      → by_maintenance device.id rule (some s) ≡ none
      → IsOpen device
  by_maintenance-IsOpen device rule s (inl (e, all)) h = inl all
  by_maintenance-IsOpen device rule s (inr (before, m, after, e, f, eff, all)) h = inr (
    before,
    m,
    after,
    e,
    by_maintenance-allows device.id rule m
        (subst (λ x. by_maintenance device.id rule (some x) ≡ none) f h),
    eff,
    all,
  )

  read_windows-IsOpen :
      (device : MonitoredDevice) (rule : ℕ) (b : Bool)
      → windows_fail ≡ b
      → by_maintenance device.id rule
          (if b then none else some (is_under_maintenance world (target device) now windows))
        ≡ none
      → (windows_fail ≡ true) ⊎ IsOpen device
  read_windows-IsOpen device rule true e h = inl e
  read_windows-IsOpen device rule false e h = inr (
      by_maintenance-IsOpen device rule _
        (is_under_maintenance-IsFirst world (target device) now windows) h)

  module _ {F : Type 0} (fl : Floats F) (same : ConditionResult F → ConditionResult F → Bool)
      (w : Wiring) where
    -- The wiring with these checkers.
    abbrev pub wired : Wiring
    wired = record w {
      checkers = campus_checkers fails windows_fail nodes world target now windows;
    }

    -- If an evaluation opens an alert with the campus services as checkers, then every device above
    -- the alert's device in the topology is not down, or a query of the walk up fails; and there is no
    -- maintenance window in effect for it, or the first one in effect does not suppress alerts, or the
    -- windows cannot be read.
    pub evaluate_rule-IsOpen :
        (t : Moment F) (rule : AlertRule) (device : MonitoredDevice) (m : MetricReading F)
        (previous : String) (e : Engine F)
        → length e.store.alerts
          < length (evaluate_rule fl same wired t rule device m previous e).store.alerts
        → IsUpOrUnknown device.id × ((windows_fail ≡ true) ⊎ IsOpen device)
    unfolding check_suppression_for_device
    evaluate_rule-IsOpen t rule device m previous e more =
        let v = evaluation_of fl same wired t rule device m previous e in
        let opened = opens fl same wired t rule device m previous e in
        let count = evaluate_rule-length fl same wired t rule device m previous e in
        let opening : opened ≡ true = elim (Bool-cases opened) [
          | inl h ↦ h
          | inr h ↦ let bad : ⊥ = ground (arith, h, count, more) in elim bad [ ]
        ] in
        let checks =
          and_right (is_none (find_active_alert_for_rule v.faults.find_active rule device e)) _ (
            and_right (is_due v v.state.state) _
              (and_right (rule_triggered rule (count_if met v.results)) _ opening)) in
        let quiet =
          is_none-first_of (by_topology device.id rule.id (check_suppression fails nodes device.id))
            (by_maintenance device.id rule.id (
              if windows_fail
              then none
              else some (is_under_maintenance world (target device) now windows)))
            (and_left _ _ checks) in
        let (r, found, verdict) = check_suppression-Verdict fails nodes device.id in
        (
          by_topology-up device.id rule.id (check_suppression fails nodes device.id) r found verdict
              quiet.0,
          read_windows-IsOpen device rule.id windows_fail refl quiet.1,
        )
