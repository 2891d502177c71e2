-- ===== src/Campus/Maintenance.antt =====
-- backend/internal/campus/maintenance.go: whether a device is in a maintenance window. The parsing of
-- times and of networks, the printing of ids and the calendar are parameters; times are nanoseconds.
pub mod Effective
mod Examples
use rayavriti_netmonitor.Common.{
  ℕ, ◌+◌, Bool, true, false, not, ◌&&◌, ◌||◌, List, [], ◌∷◌, Option, none, some, String, str_eq,
  ltb, if◌then◌else◌,
}

-- The fields of a window that decide.
pub record MaintenanceWindow : Type 0 where
  pub scope_type : String
  pub scope_value : String
  pub schedule_type : String
  pub start_time : Option String
  pub end_time : Option String
  pub recurrence_rule : Option String
  pub recurrence_start_time : Option String
  pub recurrence_end_time : Option String
  pub suppress_alerts : Bool
  pub suppress_notifications : Bool
  pub enabled : Bool

-- `parse` is time.Parse with RFC 3339, `print_id` prints an id in decimal, `contains` is whether a
-- network in CIDR notation parses and contains an address that parses, and `today_at` is the time of
-- now's day with the clock time of another time.
pub record World : Type 0 where
  pub parse : String → Option ℕ
  pub print_id : ℕ → String
  pub contains : String → String → Bool
  pub today_at : ℕ → ℕ → ℕ

pub record Target : Type 0 where
  pub device_id : ℕ
  pub location_id : Option ℕ
  pub device_ip : String

unfoldable pub matches_subnet : World → String → String → Bool
matches_subnet w ip cidr = if str_eq cidr "" || str_eq ip "" then false else w.contains cidr ip

abbrev pub is_location : World → String → Option ℕ → Bool
is_location w value none = false
is_location w value (some id) = str_eq value (w.print_id id)

unfoldable pub window_applies_to : World → MaintenanceWindow → Target → Bool
unfolding matches_subnet
window_applies_to w m t =
    if str_eq m.scope_type "global"
    then true
    else if str_eq m.scope_type "device"
    then str_eq m.scope_value (w.print_id t.device_id)
    else if str_eq m.scope_type "location"
    then is_location w m.scope_value t.location_id
    else if str_eq m.scope_type "subnet"
    then matches_subnet w t.device_ip m.scope_value
    else false

-- Two times that are given and parse.
abbrev pub parsed : World → Option String → Option ℕ
parsed w none = none
parsed w (some s) = w.parse s

abbrev pub both : Option ℕ → Option ℕ → (ℕ → ℕ → Bool) → Bool
both none b test = false
both (some a) none test = false
both (some a) (some b) test = test a b

unfoldable pub is_active_once : World → MaintenanceWindow → ℕ → Bool
is_active_once w m now =
    both (parsed w m.start_time) (parsed w m.end_time) (λ start end. ltb start now && ltb now end)

abbrev pub is_set : Option String → Bool
is_set none = false
is_set (some s) = true

-- `now` lies after the day's start and before it plus `end - start`; the difference may be negative,
-- so `start` is added on the other side.
abbrev pub in_daily : World → ℕ → ℕ → ℕ → Bool
in_daily w now start end =
    ltb (w.today_at now start) now && ltb (now + start) (w.today_at now start + end)

unfoldable pub is_active_recurring : World → MaintenanceWindow → ℕ → Bool
is_active_recurring w m now =
    is_set m.recurrence_rule
    && (both (parsed w m.recurrence_start_time) (parsed w m.recurrence_end_time)
          (λ first last. not (ltb now first) && not (ltb last now))
        && both (parsed w m.start_time) (parsed w m.end_time) (in_daily w now))

unfoldable pub window_is_active : World → MaintenanceWindow → ℕ → Bool
unfolding is_active_once is_active_recurring
window_is_active w m now =
    if str_eq m.schedule_type "once" || str_eq m.schedule_type "one_time"
    then is_active_once w m now
    else if str_eq m.schedule_type "recurring"
    then is_active_recurring w m now
    else false

pub record MaintenanceStatus : Type 0 where
  pub under_maintenance : Bool
  pub suppress_alerts : Bool
  pub suppress_notify : Bool
  pub window : Option MaintenanceWindow

abbrev pub status_of : MaintenanceWindow → MaintenanceStatus
status_of m = record {
  under_maintenance = true;
  suppress_alerts = m.suppress_alerts;
  suppress_notify = m.suppress_notifications;
  window = some m;
}

abbrev pub no_maintenance : MaintenanceStatus
no_maintenance = record {
  under_maintenance = false;
  suppress_alerts = false;
  suppress_notify = false;
  window = none;
}

-- IsUnderMaintenance, on the windows that the query returns.
unfoldable pub is_under_maintenance :
    World → Target → ℕ → List MaintenanceWindow → MaintenanceStatus
unfolding window_applies_to window_is_active
is_under_maintenance w t now [] = no_maintenance
is_under_maintenance w t now (m ∷ windows) =
    let rest = is_under_maintenance w t now windows in
    if not m.enabled
    then rest
    else if not (window_applies_to w m t)
    then rest
    else if not (window_is_active w m now)
    then rest
    else status_of m
