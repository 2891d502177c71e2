-- ===== src/Engine/Suppression.antt =====
-- engine/suppression.go: whether the alert of a rule on a device is suppressed. The checkers are what
-- the campus services answer; `none` is a failed check, which does not suppress.
use rayavriti_netmonitor.Common.{ℕ, ◌&&◌, String, Option, none, some, if◌then◌else◌}
use rayavriti_netmonitor.Campus.Topology.{SuppressionResult, parent_down, not_suppressed}
use rayavriti_netmonitor.Campus.Maintenance.{MaintenanceStatus}
use rayavriti_netmonitor.Engine.Types.{MonitoredDevice, AlertRule}

-- The checkers that the engine was given, if any.
pub record Checkers : Type 0 where
  pub suppression_checker : Option (ℕ → Option SuppressionResult)
  pub maintenance_checker : Option (MonitoredDevice → Option MaintenanceStatus)

pub record SuppressedAlert : Type 0 where
  pub device_id : ℕ
  pub rule_id : ℕ
  pub reason : String
  pub root_cause_device_id : Option ℕ

-- The record that a suppression makes; `none` is that the alert is not suppressed.
abbrev pub by_topology : ℕ → ℕ → Option SuppressionResult → Option SuppressedAlert
by_topology device rule none = none
by_topology device rule (some not_suppressed) = none
by_topology device rule (some (parent_down id p)) = some record {
  device_id = device;
  rule_id = rule;
  reason = "parent_down";
  root_cause_device_id = some p.device_id;
}

abbrev pub by_maintenance : ℕ → ℕ → Option MaintenanceStatus → Option SuppressedAlert
by_maintenance device rule none = none
by_maintenance device rule (some s) =
    if s.under_maintenance && s.suppress_alerts
    then some record {
      device_id = device;
      rule_id = rule;
      reason = "maintenance_window";
      root_cause_device_id = none;
    }
    else none

abbrev pub checked {ℓ} : {A B : Type ℓ} → Option (A → Option B) → A → Option B
checked none a = none
checked (some check) a = check a

abbrev pub first_of : Option SuppressedAlert → Option SuppressedAlert → Option SuppressedAlert
first_of none b = b
first_of (some a) b = some a

unfoldable pub check_suppression_for_device :
    Checkers → MonitoredDevice → AlertRule → Option SuppressedAlert
check_suppression_for_device c device rule =
    first_of (by_topology device.id rule.id (checked c.suppression_checker device.id))
      (by_maintenance device.id rule.id (checked c.maintenance_checker device))
