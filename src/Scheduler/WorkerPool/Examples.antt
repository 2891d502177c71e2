-- ===== src/Scheduler/WorkerPool/Examples.antt =====
-- Tests of the model of worker_pool.go, and its theorems at concrete inputs.
use rayavriti_netmonitor.Common.{ℕ, ◌+◌, ◌≤◌, ◌≡◌, refl, List, [], ◌∷◌, true, count_if, ◌==◌}
use rayavriti_netmonitor.Common.Int.{pos}
use rayavriti_netmonitor.Scheduler.Types.{Device, PollJob}
use rayavriti_netmonitor.Scheduler.WorkerPool.Queues.{WorkerPoolConfig}
use rayavriti_netmonitor.Scheduler.WorkerPool.Workers.{
  from_low, panicked, Pool, Event, enqueues, steps, finishes, delivers, stops, step, run, start,
}
use rayavriti_netmonitor.Scheduler.WorkerPool.Moves.{by_phase}
use rayavriti_netmonitor.Scheduler.WorkerPool.Accounting.{Inv, run-start-Inv}
use rayavriti_netmonitor.Scheduler.WorkerPool.Conservation.{
  queued, held, accepted, finished, accepted_accounted,
}
use rayavriti_netmonitor.Scheduler.WorkerPool.Shutdown.{may_take, taken, stop_bounds_taken}

abbrev device : ℕ → Device
device id = record {
  id = id;
  name = "core";
  protocol = "ping";
  device_category = "switch";
  interval = 60;
  status = "up";
}

abbrev job : ℕ → ℕ → PollJob
job id priority = record { device = device id; priority = priority; schedule_at = 0 }

-- One worker, and room for one critical, two normal and one low job.
abbrev small : WorkerPoolConfig
small = record {
  worker_count = pos 1;
  max_worker_count = pos 1;
  critical_queue_size = pos 1;
  normal_queue_size = pos 2;
  low_queue_size = pos 1;
}

-- The second critical job is dropped; the worker takes the first, the poll panics, and all counters
-- but the result are done.
abbrev schedule : List (Event ℕ)
schedule =
    enqueues (job 1 0)
    ∷ enqueues (job 2 0)
    ∷ enqueues (job 3 2)
    ∷ steps 0 from_low
    ∷ steps 0 from_low
    ∷ steps 0 from_low
    ∷ steps 0 from_low
    ∷ steps 0 from_low
    ∷ finishes 0 (panicked "boom" 9 0) 5
    ∷ steps 0 from_low
    ∷ steps 0 from_low
    ∷ steps 0 from_low
    ∷ steps 0 from_low
    ∷ steps 0 from_low
    ∷ delivers 0
    ∷ []

schedule_counts : accepted (λ j. true) schedule (start small true) ≡ 2
unfolding accepted start step
schedule_counts = refl

schedule_finishes : finished (λ j. j.device.id == 1) schedule (start small true) ≡ 1
unfolding finished start step
schedule_finishes = refl

schedule_result : (run schedule (start small true)).queues.metrics.errors ≡ 1
unfolding run start step
schedule_result = refl

run-start-Inv_example : Inv (run schedule (start small true))
run-start-Inv_example = run-start-Inv small true schedule

accepted_accounted_example :
    queued (λ j. j.device.id == 1) (run schedule (start small true)).queues
      + held (λ j. j.device.id == 1) (run schedule (start small true))
      + finished (λ j. j.device.id == 1) schedule (start small true)
    ≡ accepted (λ j. j.device.id == 1) schedule (start small true)
accepted_accounted_example = accepted_accounted (λ j. j.device.id == 1) small true schedule

-- The worker has passed the check when the pool is told to stop, and a job waits.
abbrev stopped : Pool ℕ
stopped =
    run (enqueues (job 1 0) ∷ steps 0 from_low ∷ steps 0 from_low ∷ stops ∷ []) (start small true)

is_stopping : stopped.stopping ≡ true
unfolding run start step
is_stopping = refl

stop_bounds_taken_example :
    taken (run schedule stopped) ≤ taken stopped + count_if (by_phase may_take) stopped.workers
stop_bounds_taken_example = stop_bounds_taken schedule stopped is_stopping
