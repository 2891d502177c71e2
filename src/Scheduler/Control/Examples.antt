-- ===== src/Scheduler/Control/Examples.antt =====
-- Tests of the model of scheduler.go, and its theorems at concrete inputs.
use rayavriti_netmonitor.Common.{
  ℕ, true, false, List, [], ◌∷◌, none, some, ◌≡◌, refl, if◌then◌else◌,
}
use rayavriti_netmonitor.Common.Int.{pos}
use rayavriti_netmonitor.Common.Assoc.{nat_eq}
use rayavriti_netmonitor.Scheduler.Types.{Device, PollResult}
use rayavriti_netmonitor.Scheduler.DeviceStateTracker.{new_tracker}
use rayavriti_netmonitor.Scheduler.DeviceStateTracker as Tracker
use rayavriti_netmonitor.Scheduler.PollDispatcher.Defs.{
  new_dispatcher, upsert, upsert_at, device_ids, record_status, record_failure, done, remove,
  remove_at, update, update_at, failed,
}
use rayavriti_netmonitor.Scheduler.ResultPipeline.Run.{new_result_pipeline}
use rayavriti_netmonitor.Scheduler.Control.{
  Scheduler, schedule_device, schedule_all, remove_unlisted, remove_unless, listed, reconcile,
  handle_poll_result, is_operational,
}
use rayavriti_netmonitor.Scheduler.Control.Reconcile.{has, reconcile-has}
use rayavriti_netmonitor.Scheduler.Control.Collect.{
  World, acquired, held, error, collect_and_return_result, collect_and_return_result-is_operational,
}
use rayavriti_netmonitor.Scheduler.Control.Actions.{
  act, Action, schedules, reconciles, results, act_all, new_scheduler, Agrees, act_all-Agrees,
}
use rayavriti_netmonitor.Scheduler.Control.Late.{is_tracked, reconcile_all, late_result_persists}

abbrev device : ℕ → ℕ → Device
device id interval = record {
  id = id;
  name = "core";
  protocol = "snmp";
  device_category = "switch";
  interval = interval;
  status = "up";
}

abbrev down : ℕ → PollResult ℕ
down id = record {
  device = device id 60;
  collect_result = none;
  status = "down";
  response_ms = 4;
  error = none;
  started_at = 10;
  finished_at = some 20;
}

-- The protocol has a collector, which fails; another instance may hold the lock of device 2.
abbrev world : ℕ → World ℕ
world ttl = record {
  lock = λ t. if listed ttl [] then held else acquired;
  registered = λ p. true;
  collect = λ d. (d, error "timeout");
  started = 10;
  returned = 4000010;
  finished = 4000011;
  zero_ms = 0;
  of_ms = λ n. n;
  unknown_protocol = λ p. p;
  with_duration = λ d n. d;
}

abbrev start : Scheduler ℕ
start = record {
  dispatcher = new_dispatcher (pos 60000000000);
  state_tracker = new_tracker;
  pipeline = new_result_pipeline (pos 100);
  job_count = 0;
}

abbrev actions : List (Action ℕ)
actions =
    schedules 0 (device 1 60)
    ∷ schedules 0 (device 2 60)
    ∷ results 30 (down 1)
    ∷ reconciles 40 (some (device 2 30 ∷ []))
    ∷ results 50 (down 2)
    ∷ []

actions_tracked : is_tracked 2 (act_all actions (new_scheduler (pos 60000000000) (pos 100))) ≡ true
unfolding act_all act schedule_device upsert new_scheduler new_dispatcher reconcile device_ids
    handle_poll_result record_status record_failure done remove Tracker.record_failure schedule_all
    remove_unlisted remove_unless update update_at remove_at failed Tracker.failure_health
    Tracker.remove upsert_at
actions_tracked = refl

reconcile-has_example : has 2 (reconcile 40 (some (device 2 30 ∷ [])) start).dispatcher ≡ true
reconcile-has_example = reconcile-has 2 40 (device 2 30 ∷ []) start

act_all-Agrees_example : Agrees (act_all actions (new_scheduler (pos 60000000000) (pos 100)))
unfolding act schedule_device upsert new_scheduler new_dispatcher reconcile device_ids
    handle_poll_result record_status record_failure done remove
act_all-Agrees_example = act_all-Agrees (pos 60000000000) (pos 100) actions refl

late_result_persists_example :
    is_tracked 1
      (reconcile_all ((40, device 2 30 ∷ []) ∷ []) (handle_poll_result 30 (down 1) start))
    ≡ true
unfolding new_dispatcher
late_result_persists_example =
    late_result_persists 30 (down 1) start ((40, device 2 30 ∷ []) ∷ []) refl refl refl

collect_and_return_result-is_operational_example :
    is_operational (
      collect_and_return_result
        (world 2)
        (record { device = device 1 60; priority = 0; schedule_at = 0 }))
    ≡ false
collect_and_return_result-is_operational_example =
    collect_and_return_result-is_operational (world 2)
      (record { device = device 1 60; priority = 0; schedule_at = 0 })
