-- ===== src/Scheduler/DeviceStateTracker/Examples.antt =====
-- Tests of the model of device_state_tracker.go, and its theorems at concrete inputs.
use rayavriti_netmonitor.Common.{ℕ, ◌≡◌, refl, List, [], ◌∷◌, some, arith, length}
use rayavriti_netmonitor.Common.Assoc.{lookup, nat_eq}
use rayavriti_netmonitor.Scheduler.Types.{unreachable}
use rayavriti_netmonitor.Scheduler.DeviceStateTracker.{
  DeviceHealth, new_tracker, new_health, record_success, record_failure, get_state, success_health,
  failure_level, failure_health, get_unreachable_count, get_unreachable_devices,
}
use rayavriti_netmonitor.Scheduler.DeviceStateTracker.Backoff.{
  Op, success, failure, pausing, apply, run, IsSound, run-IsSound, apply-other,
}
use rayavriti_netmonitor.Scheduler.DeviceStateTracker.Counts.{length-get_unreachable_devices}

abbrev calls : List (ℕ × Op)
calls =
    (7, success 10 4) ∷ (7, failure 20) ∷ (7, failure 30) ∷ (7, failure 40) ∷ (8, failure 50) ∷ []

-- The entry of device 7 after these calls.
abbrev down_seven : DeviceHealth
down_seven =
    failure_health 40 (failure_health 30 (failure_health 20 (success_health 10 4 (new_health 7))))

calls_found : get_state 7 (run calls new_tracker) ≡ some down_seven
unfolding run apply record_success record_failure get_state
calls_found = refl

calls_unreachable : down_seven.state ≡ unreachable
unfolding failure_health failure_level success_health
calls_unreachable = refl

run-IsSound_example : IsSound 7 down_seven
run-IsSound_example = run-IsSound calls 7 down_seven calls_found

apply-other_example :
    lookup 7 (apply pausing 8 (run calls new_tracker)) ≡ lookup 7 (run calls new_tracker)
apply-other_example = apply-other pausing 8 7 (run calls new_tracker) (λ e. omega arith)

length-get_unreachable_devices_example :
    let t = run calls new_tracker in length (get_unreachable_devices t) ≡ get_unreachable_count t
length-get_unreachable_devices_example = length-get_unreachable_devices (run calls new_tracker)

one_unreachable : get_unreachable_devices (run calls new_tracker) ≡ 7 ∷ []
unfolding run apply record_success record_failure get_unreachable_devices failure_health
    failure_level success_health
one_unreachable = refl
