-- ===== src/Campus/Maintenance/Examples.antt =====
-- Tests of the model of maintenance.go, and its theorems at concrete inputs.
use rayavriti_netmonitor.Common.{
  ◌+◌, ◌*◌, ◌/◌, Bool, true, false, List, [], ◌∷◌, none, some, String, str_eq, ◌≡◌, refl,
  if◌then◌else◌,
}
use rayavriti_netmonitor.Campus.Maintenance.{
  MaintenanceWindow, World, Target, window_is_active, window_applies_to, is_active_recurring,
  is_under_maintenance, status_of,
}
use rayavriti_netmonitor.Campus.Maintenance.Effective.{IsFirst, is_under_maintenance-IsFirst}

-- Times count hours here; the days start at the multiples of 24.
abbrev world : World
world = record {
  parse = λ s. if str_eq s "ten" then some 10 else if str_eq s "two" then some 14 else some 480;
  print_id = λ n. "7";
  contains = λ c i. true;
  today_at = λ now t. (now / 24) * 24 + t;
}

abbrev target : Target
target = record { device_id = 7; location_id = none; device_ip = "10.0.0.1" }

abbrev window : String → Bool → MaintenanceWindow
window scope enabled = record {
  scope_type = scope;
  scope_value = "7";
  schedule_type = "recurring";
  start_time = some "ten";
  end_time = some "two";
  recurrence_rule = some "daily";
  recurrence_start_time = some "ten";
  recurrence_end_time = some "end";
  suppress_alerts = true;
  suppress_notifications = false;
  enabled = enabled;
}

abbrev windows : List MaintenanceWindow
windows = window "global" false ∷ window "location" true ∷ window "device" true ∷ []

windows_status : is_under_maintenance world target 36 windows ≡ status_of (window "device" true)
unfolding is_under_maintenance window_applies_to window_is_active is_active_recurring
windows_status = refl

is_under_maintenance-IsFirst_example :
    IsFirst world target 36 windows (is_under_maintenance world target 36 windows)
is_under_maintenance-IsFirst_example = is_under_maintenance-IsFirst world target 36 windows
