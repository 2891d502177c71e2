-- ===== src/Scheduler/PollDispatcher/Examples.antt =====
-- Tests of the model of poll_dispatcher.go, and its theorems at concrete inputs.
use rayavriti_netmonitor.Common.{ℕ, ◌*◌, ◌≡◌, refl, List, [], ◌∷◌, none, some, arith, true, false}
use rayavriti_netmonitor.Common.Int.{pos}
use rayavriti_netmonitor.Common.Assoc.{lookup, nat_eq}
use rayavriti_netmonitor.Scheduler.Types.{Device, unreachable}
use rayavriti_netmonitor.Scheduler.DeviceStateTracker.{failure_level}
use rayavriti_netmonitor.Scheduler.WorkerPool.Queues.{
  Queues, new_queues, default_worker_pool_config,
}
use rayavriti_netmonitor.Scheduler.PollDispatcher.Defs.{
  ScheduleEntry, Dispatcher, new_dispatcher, upsert, effective_interval, new_entry, clamp_interval,
  record_failure, failed, remove, remove_id,
}
use rayavriti_netmonitor.Scheduler.PollDispatcher.Dispatch.{
  Round, dispatch_loop, dispatch_due, round_of,
}
use rayavriti_netmonitor.Scheduler.PollDispatcher.Invariant.{EntryOk, IsValid}
use rayavriti_netmonitor.Scheduler.PollDispatcher.Calls.{
  Op, begins, ends, dispatches, upserts, failures, removes, apply, apply_all, reachable-IsValid,
}
use rayavriti_netmonitor.Scheduler.PollDispatcher.Loop.Entry.{jobs_for}
use rayavriti_netmonitor.Scheduler.PollDispatcher.Loop.Step.{settled, ready_jobs}
use rayavriti_netmonitor.Scheduler.PollDispatcher.Loop.Due.{
  dispatch_loop_exact, dispatch_due_total, effective_interval-multiplier,
}
use rayavriti_netmonitor.Scheduler.PollDispatcher.Loop.Hang.{IsStuck, wrapped_backoff_hangs}

abbrev device : ℕ → Device
device id = record {
  id = id;
  name = "edge";
  protocol = "snmp";
  device_category = "router";
  interval = 60;
  status = "up";
}

-- Device 1 fails twice and is due again; device 2 is removed.
abbrev ops : List Op
ops =
    upserts 0 (device 1) 0 (pos 6000000000)
    ∷ upserts 0 (device 2) 1 (pos 0)
    ∷ failures 5 1
    ∷ failures 6 1
    ∷ removes 2
    ∷ []

abbrev dispatcher : Dispatcher
dispatcher = apply_all ops (new_dispatcher (pos 60000000000))

abbrev failed_twice : ScheduleEntry
failed_twice = failed 6 (failed 5 (new_entry 0 false (device 1) 0 6000000000))

dispatcher-IsValid : IsValid dispatcher
dispatcher-IsValid =
    reachable-IsValid ops (pos 60000000000) refl (refl, (refl, (refl, (refl, (refl, tt)))))

-- An initial load of the devices, and a turn of the loop.
abbrev load : List Op
load =
    begins
    ∷ upserts 0 (device 1) 1 (pos 6000000000)
    ∷ ends
    ∷ dispatches 9000000000 9000000001 (new_queues default_worker_pool_config)
    ∷ []

reachable-IsValid_example : IsValid (apply_all load (new_dispatcher (pos 60000000000)))
reachable-IsValid_example =
    reachable-IsValid load (pos 60000000000) refl (refl, (refl, (refl, (refl, tt))))

one_left : dispatcher.schedule ≡ 1 ∷ []
unfolding apply_all apply new_dispatcher upsert clamp_interval record_failure failed
    effective_interval new_entry remove remove_id
one_left = refl

found_one : lookup 1 dispatcher.device_map ≡ some failed_twice
unfolding apply_all apply new_dispatcher upsert clamp_interval record_failure failed
    effective_interval new_entry remove remove_id
found_one = refl

dispatch_loop_exact_example :
    (t : Round) × (dispatch_loop 2 12000000006 (round_of dispatcher) ≡ some t)
    × (lookup 1 t.entries ≡ settled 12000000006 (lookup 1 dispatcher.device_map))
    × (jobs_for 1 t.jobs ≡ ready_jobs 12000000006 (lookup 1 dispatcher.device_map))
dispatch_loop_exact_example =
    dispatch_loop_exact 2 12000000006 1 dispatcher dispatcher-IsValid (rw one_left (omega arith))

one_job : ready_jobs 12000000006 (lookup 1 dispatcher.device_map) ≡ 1
one_job = rw found_one (unfold failed effective_interval new_entry in refl)

dispatch_due_total_example :
    (e : Dispatcher) × (r : Queues) × (dispatch_due 2 12000000006 12000000009
        (dispatcher, new_queues default_worker_pool_config)
      ≡ some (e, r))
    × IsValid e
dispatch_due_total_example =
    dispatch_due_total 2 12000000006 12000000009 dispatcher (new_queues default_worker_pool_config)
      dispatcher-IsValid (rw one_left (omega arith))

failed_twice-EntryOk : EntryOk 1 failed_twice
unfolding failed new_entry
failed_twice-EntryOk = omega arith

effective_interval-multiplier_example :
    effective_interval failed_twice
    ≡ pos (failed_twice.interval * (failure_level failed_twice.failures).1)
effective_interval-multiplier_example =
    effective_interval-multiplier 1 failed_twice failed_twice-EntryOk

-- A device that has failed ten times and whose interval is then set to 2147483647 seconds.
abbrev wrapped_entry : ScheduleEntry
wrapped_entry = record {
  device_id = 1;
  device = device 1;
  priority = 0;
  interval = 2147483647000000000;
  next_poll_at = 0;
  state = unreachable;
  failures = 10;
  last_status = "down";
  in_flight = true;
}

abbrev wrapped_round : Round
wrapped_round = record { ids = 1 ∷ []; entries = (1, wrapped_entry) ∷ []; jobs = [] }

wrapped_entry-IsStuck : IsStuck 5 wrapped_entry
unfolding effective_interval
wrapped_entry-IsStuck = record {
  due = omega arith;
  flying = refl;
  active = λ e. cc;
  back = 1266874897709551615;
  wrapped = refl;
}

wrapped_backoff_hangs_example : dispatch_loop 1000 5 wrapped_round ≡ none
wrapped_backoff_hangs_example =
    wrapped_backoff_hangs 1000 5 1 wrapped_round wrapped_entry refl (omega arith)
      wrapped_entry-IsStuck
