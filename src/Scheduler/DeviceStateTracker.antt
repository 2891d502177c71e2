-- ===== src/Scheduler/DeviceStateTracker.antt =====
-- backend/internal/scheduler/device_state_tracker.go: the health of each polled device. Times
-- and durations are nanoseconds, and the clock's reading is an argument.
pub mod Counts
pub mod Backoff
pub mod Runs
mod Examples
use rayavriti_netmonitor.Common.{
  ℕ, zero, suc, ◌+◌, ◌-◌, ◌%◌, String, Bool, true, false, Option, none, some, List, [], ◌∷◌, ◌++◌,
  leb, ltb, if◌then◌else◌, length, drop,
}
use rayavriti_netmonitor.Common.Int.{ℤ, pos, to_int64, div_trunc}
use rayavriti_netmonitor.Common.Assoc.{lookup, insert, erase, count_values, nat_eq}
use rayavriti_netmonitor.Scheduler.Types.{
  DeviceState, healthy, unreachable, paused, is_healthy, is_unreachable, is_paused,
}

pub record DeviceHealth : Type 0 where
  pub device_id : ℕ
  pub current_status : String
  pub consecutive_fails : ℕ
  pub last_success_at : Option ℕ
  pub last_fail_at : Option ℕ
  pub last_response_time : ℕ
  pub avg_response_time : ℤ
  pub state : DeviceState
  pub backoff_multiplier : ℕ
  pub response_history : List ℕ

abbrev pub Tracker : Type 0
Tracker = List (ℕ × DeviceHealth)

abbrev pub new_tracker : Tracker
new_tracker = []

-- `&DeviceHealth{DeviceID: id}`: the other fields are Go's zero values.
abbrev pub new_health : ℕ → DeviceHealth
new_health id = record {
  device_id = id;
  current_status = "";
  consecutive_fails = 0;
  last_success_at = none;
  last_fail_at = none;
  last_response_time = 0;
  avg_response_time = pos 0;
  state = healthy;
  backoff_multiplier = 0;
  response_history = [];
}

abbrev pub health_or_new : ℕ → Option DeviceHealth → DeviceHealth
health_or_new id none = new_health id
health_or_new id (some h) = h

-- The last ten entries.
unfoldable pub keep_last_ten : List ℕ → List ℕ
keep_last_ten xs = if ltb 10 (length xs) then drop (length xs - 10) xs else xs

-- `total += t` on int64, as the bit pattern of the sum.
unfoldable pub total_from : ℕ → List ℕ → ℕ
total_from total [] = total
total_from total (t ∷ ts) = total_from ((total + t) % 18446744073709551616) ts

unfoldable pub success_health : ℕ → ℕ → DeviceHealth → DeviceHealth
success_health now response_time h =
    let history = keep_last_ten (h.response_history ++ response_time ∷ []) in
    record h {
      current_status = "up";
      consecutive_fails = 0;
      last_success_at = some now;
      last_response_time = response_time;
      state = healthy;
      backoff_multiplier = 1;
      response_history = history;
      avg_response_time = div_trunc (to_int64 (total_from 0 history)) (length history);
    }

unfoldable pub record_success : ℕ → ℕ → ℕ → Tracker → Tracker
record_success now id response_time t =
    insert id (success_health now response_time (health_or_new id (lookup id t))) t

-- The `switch` on the number of failures: the new state and the multiplier.
unfoldable pub failure_level : ℕ → DeviceState × ℕ
failure_level fails =
    if leb 10 fails
    then (unreachable, 8)
    else if leb 3 fails
    then (unreachable, 4)
    else if leb 2 fails
    then (healthy, 2)
    else (healthy, 1)

unfoldable pub failure_health : ℕ → DeviceHealth → DeviceHealth
failure_health now h =
    let fails = suc h.consecutive_fails in
    record h {
      current_status = "down";
      consecutive_fails = fails;
      last_fail_at = some now;
      state = (failure_level fails).0;
      backoff_multiplier = (failure_level fails).1;
    }

unfoldable pub record_failure : ℕ → ℕ → Tracker → Tracker
record_failure now id t = insert id (failure_health now (health_or_new id (lookup id t))) t

unfoldable pub get_state : ℕ → Tracker → Option DeviceHealth
get_state id t = lookup id t

unfoldable pub get_unreachable_devices : Tracker → List ℕ
get_unreachable_devices [] = []
get_unreachable_devices ((k, h) ∷ t) =
    let rest = get_unreachable_devices t in
    if is_unreachable h.state then h.device_id ∷ rest else rest

unfoldable pub get_healthy_count : Tracker → ℕ
get_healthy_count t = count_values (λ h. is_healthy h.state) t

unfoldable pub get_unreachable_count : Tracker → ℕ
get_unreachable_count t = count_values (λ h. is_unreachable h.state) t

unfoldable pub get_paused_count : Tracker → ℕ
get_paused_count t = count_values (λ h. is_paused h.state) t

-- A write through the pointer in the map, if the key is there.
abbrev pub update_health :
    (DeviceHealth → DeviceHealth) → Option DeviceHealth → ℕ → Tracker → Tracker
update_health f none id t = t
update_health f (some h) id t = insert id (f h) t

unfoldable pub pause : ℕ → Tracker → Tracker
pause id t = update_health (λ h. record h { state = paused }) (lookup id t) id t

unfoldable pub resume : ℕ → Tracker → Tracker
resume id t =
    update_health (λ h. record h { state = healthy; consecutive_fails = 0; backoff_multiplier = 1 })
      (lookup id t) id t

unfoldable pub remove : ℕ → Tracker → Tracker
remove id t = erase id t

unfoldable pub count : Tracker → ℕ
count t = length t
