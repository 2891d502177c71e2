-- ===== src/Scheduler/DeviceStateTracker/Counts.antt =====
-- The counters of device_state_tracker.go.
use rayavriti_netmonitor.Common.{◌+◌, ◌≡◌, refl, [], ◌∷◌, length, arith}
use rayavriti_netmonitor.Scheduler.DeviceStateTracker.{
  Tracker, get_healthy_count, get_unreachable_count, get_paused_count, count,
  get_unreachable_devices,
}

-- Every tracked device is counted once: the healthy, the unreachable and the paused devices
-- together are all of them.
pub state_counts :
    (t : Tracker) → get_healthy_count t + get_unreachable_count t + get_paused_count t ≡ count t
unfolding get_healthy_count get_unreachable_count get_paused_count count
state_counts [] = refl
state_counts ((k, h) ∷ t) = ground (arith, state_counts t)

-- The list of unreachable devices is as long as their count says.
pub length-get_unreachable_devices :
    (t : Tracker) → length (get_unreachable_devices t) ≡ get_unreachable_count t
unfolding get_unreachable_devices get_unreachable_count
length-get_unreachable_devices [] = refl
length-get_unreachable_devices ((k, h) ∷ t) = ground (arith, length-get_unreachable_devices t)
