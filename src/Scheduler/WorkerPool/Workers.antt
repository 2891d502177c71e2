-- ===== src/Scheduler/WorkerPool/Workers.antt =====
-- worker_pool.go: the loop of a worker, executeJob and Stop. A worker's goroutine is in a phase between
-- any two of its accesses to what is shared: a `select`, an atomic counter, the delivery of a result.
-- Which ready case a `select` takes is part of the schedule. The queues are never closed. Enqueue is
-- one step: its counter goes up before the send.
use rayavriti_netmonitor.Common.{
  ℕ, ◌+◌, ◌-◌, ◌%◌, ◌/◌, Bool, true, false, ◌||◌, List, [], ◌∷◌, ◌++◌, ◌==◌, ltb, get_elem?,
  replicate, set, if◌then◌else◌, Option, none, some, String,
}
use rayavriti_netmonitor.Scheduler.Types.{PollJob, PollResult, has_error}
use rayavriti_netmonitor.Scheduler.WorkerPool.Queues.{
  Queues, Metrics, MetricsSnapshot, WorkerPoolConfig, new_queues, worker_total, enqueue,
}

pub data Level : Type 0 where
  at_critical at_normal at_low : Level

-- What executeJob has done since the poll ended: nothing yet, or all up to the counter that the stage
-- is named for.
pub data Stage : Type 0 where
  polled lowered totalled timed completed checked : Stage

-- A worker that has not counted itself active is starting; `received` is before the queue's counter
-- goes down, and `counted` before executeJob counts the worker busy.
pub data Phase (F : Type 0) : Type 0 where
  starting : Phase F
  looping : Phase F
  trying_critical : Phase F
  trying_normal : Phase F
  waiting : Phase F
  received : Level → PollJob → Phase F
  counted : PollJob → Phase F
  executing : PollJob → Phase F
  finishing : Stage → PollJob → PollResult F → ℕ → Phase F
  returned : Phase F

pub record Worker (F : Type 0) : Type 0 where
  pub fairness_counter : ℕ
  pub phase : Phase F

-- The case that a `select` takes, where several are ready.
pub data Choice : Type 0 where
  from_critical from_normal from_low from_stop : Choice

-- A receive takes the front job.
abbrev pub receive_critical : List PollJob → Queues → Option (PollJob × Queues)
receive_critical [] q = none
receive_critical (job ∷ rest) q =
    some (job, record q { critical = record (q.critical) { jobs = rest } })

abbrev pub receive_normal : List PollJob → Queues → Option (PollJob × Queues)
receive_normal [] q = none
receive_normal (job ∷ rest) q = some (job, record q { normal = record (q.normal) { jobs = rest } })

abbrev pub receive_low : List PollJob → Queues → Option (PollJob × Queues)
receive_low [] q = none
receive_low (job ∷ rest) q = some (job, record q { low = record (q.low) { jobs = rest } })

-- The counter of a queue goes down.
abbrev pub lower : Level → Metrics → Metrics
lower at_critical m = record m { queued_critical = m.queued_critical - 1 }
lower at_normal m = record m { queued_normal = m.queued_normal - 1 }
lower at_low m = record m { queued_low = m.queued_low - 1 }

abbrev pub with_metrics : Queues → Metrics → Queues
with_metrics q m = record q { metrics = m }

abbrev pub is_empty : List PollJob → Bool
is_empty [] = true
is_empty (job ∷ rest) = false

module _ {F : Type 0} where
  abbrev pub at_phase : ℕ → Phase F → Worker F
  at_phase n f = record { fairness_counter = n; phase = f }

  -- A received job, or the phase that follows without one.
  abbrev pub take_or : Phase F → Level → ℕ → Queues → Option (PollJob × Queues) → Worker F × Queues
  take_or other level n q none = (at_phase n other, q)
  take_or other level n q (some (job, r)) = (at_phase n (received level job), r)

  abbrev pub return_now : ℕ → Queues → Worker F × Queues
  return_now n q = (
    at_phase n returned,
    record q { metrics = record (q.metrics) { active_workers = q.metrics.active_workers - 1 } },
  )

  -- The end of executeJob, one counter after the other; what is left at `checked` is the delivery.
  abbrev pub finish_stage : Stage → PollJob → PollResult F → ℕ → ℕ → Queues → Worker F × Queues
  finish_stage polled job r ms n q = (
    at_phase n (finishing lowered job r ms),
    with_metrics q (record (q.metrics) { busy_workers = q.metrics.busy_workers - 1 }),
  )
  finish_stage lowered job r ms n q = (
    at_phase n (finishing totalled job r ms),
    with_metrics q (record (q.metrics) { total_completed = q.metrics.total_completed + 1 }),
  )
  finish_stage totalled job r ms n q = (
    at_phase n (finishing timed job r ms),
    with_metrics q (record (q.metrics) { total_latency_ms = q.metrics.total_latency_ms + ms }),
  )
  finish_stage timed job r ms n q = (
    at_phase n (finishing completed job r ms),
    with_metrics q (record (q.metrics) { completed = q.metrics.completed + 1 }),
  )
  finish_stage completed job r ms n q = (
    at_phase n (finishing checked job r ms),
    with_metrics q (record (q.metrics) {
      errors = if has_error r.error then q.metrics.errors + 1 else q.metrics.errors;
    }),
  )
  finish_stage checked job r ms n q = (at_phase n (finishing checked job r ms), q)

  -- One step of a worker. `halted` tells that the context is cancelled or `stop` closed. A `select`
  -- with a `default` takes it only where no channel is ready, and one without waits.
  unfoldable pub step_phase : Phase F → Choice → Bool → ℕ → Queues → Worker F × Queues
  step_phase starting c halted n q = (
    at_phase n looping,
    with_metrics q (record (q.metrics) { active_workers = q.metrics.active_workers + 1 }),
  )
  step_phase looping c halted n q =
      if halted
      then return_now n q
      else (at_phase (n + 1) (if ((n + 1) % 8) == 0 then waiting else trying_critical), q)
  step_phase trying_critical c halted n q =
      take_or trying_normal at_critical n q (receive_critical q.critical.jobs q)
  step_phase trying_normal from_critical halted n q =
      take_or (if is_empty q.normal.jobs then waiting else trying_normal) at_critical n q
        (receive_critical q.critical.jobs q)
  step_phase trying_normal c halted n q =
      take_or (if is_empty q.critical.jobs then waiting else trying_normal) at_normal n q
        (receive_normal q.normal.jobs q)
  step_phase waiting from_critical halted n q =
      take_or waiting at_critical n q (receive_critical q.critical.jobs q)
  step_phase waiting from_normal halted n q =
      take_or waiting at_normal n q (receive_normal q.normal.jobs q)
  step_phase waiting from_low halted n q = take_or waiting at_low n q (receive_low q.low.jobs q)
  step_phase waiting from_stop halted n q =
      if halted then return_now n q else (at_phase n waiting, q)
  step_phase (received level job) c halted n q =
      (at_phase n (counted job), with_metrics q (lower level q.metrics))
  step_phase (counted job) c halted n q = (
    at_phase n (executing job),
    with_metrics q (record (q.metrics) { busy_workers = q.metrics.busy_workers + 1 }),
  )
  step_phase (executing job) c halted n q = (at_phase n (executing job), q)
  step_phase (finishing stage job r ms) c halted n q = finish_stage stage job r ms n q
  step_phase returned c halted n q = (at_phase n returned, q)

-- How a poll ended: with a result, or in a panic.
pub data Outcome (F : Type 0) : Type 0 where
  result : PollResult F → Outcome F
  panicked : String → ℕ → F → Outcome F  -- the message, the time, the zero of float64

-- safeExecute: a panic becomes a down result of the job's device.
abbrev pub safe_execute : {F : Type 0} → PollJob → Outcome F → PollResult F
safe_execute job (result r) = r
safe_execute job (panicked message now zero_ms) = record {
  device = job.device;
  collect_result = none;
  status = "down";
  response_ms = zero_ms;
  error = some message;
  started_at = now;
  finished_at = some now;
}

pub record Pool (F : Type 0) : Type 0 where
  pub queues : Queues
  pub workers : List (Worker F)
  pub stopping : Bool
  pub cancelled : Bool
  -- Whether SetResultHandler was called.
  pub has_handler : Bool
  -- What deliverResult handed to the result handler, the oldest first. A panic of the handler is
  -- recovered there and has no further effect.
  pub delivered : List (PollResult F)

pub data Event (F : Type 0) : Type 0 where
  enqueues : PollJob → Event F
  steps : ℕ → Choice → Event F
  finishes : ℕ → Outcome F → ℕ → Event F  -- the worker, the outcome, the milliseconds
  delivers : ℕ → Event F
  stops cancels : Event F

module _ {F : Type 0} where
  -- NewWorkerPool, SetResultHandler and Start.
  unfoldable pub start : WorkerPoolConfig → Bool → Pool F
  unfolding new_queues worker_total
  start cfg has_handler = record {
    queues = new_queues cfg;
    workers = replicate (worker_total cfg) (at_phase 0 starting);
    stopping = false;
    cancelled = false;
    has_handler = has_handler;
    delivered = [];
  }

  -- A move of the worker at index `i`.
  unfoldable pub step_worker : ℕ → Choice → Option (Worker F) → Pool F → Pool F
  unfolding step_phase
  step_worker i c none p = p
  step_worker i c (some w) p =
      let (w', q) = step_phase w.phase c (p.stopping || p.cancelled) w.fairness_counter p.queues in
      record p { workers = set p.workers i w'; queues = q }

  -- The poll of the worker at index `i` ends.
  unfoldable pub finish_job : ℕ → ℕ → Phase F → Outcome F → ℕ → Pool F → Pool F
  finish_job i n (executing job) o ms p = record p {
    workers = set p.workers i (at_phase n (finishing polled job (safe_execute job o) ms));
  }
  finish_job i n _ o ms p = p

  unfoldable pub finish_worker : ℕ → Outcome F → ℕ → Option (Worker F) → Pool F → Pool F
  unfolding finish_job
  finish_worker i o ms none p = p
  finish_worker i o ms (some w) p = finish_job i w.fairness_counter w.phase o ms p

  -- `if wp.resultFn != nil`, and the next turn of the loop.
  unfoldable pub deliver_result : ℕ → ℕ → Phase F → Pool F → Pool F
  deliver_result i n (finishing checked job r ms) p = record p {
    workers = set p.workers i (at_phase n looping);
    delivered = if p.has_handler then p.delivered ++ r ∷ [] else p.delivered;
  }
  deliver_result i n _ p = p

  unfoldable pub deliver_worker : ℕ → Option (Worker F) → Pool F → Pool F
  unfolding deliver_result
  deliver_worker i none p = p
  deliver_worker i (some w) p = deliver_result i w.fairness_counter w.phase p

  unfoldable pub step : Event F → Pool F → Pool F
  unfolding step_worker finish_worker deliver_worker enqueue
  step (enqueues job) p = record p { queues = (enqueue job p.queues).0 }
  step (steps i c) p = step_worker i c (get_elem? p.workers i) p
  step (finishes i o ms) p = finish_worker i o ms (get_elem? p.workers i) p
  step (delivers i) p = deliver_worker i (get_elem? p.workers i) p
  step stops p = record p { stopping = true }
  step cancels p = record p { cancelled = true }

  unfoldable pub run : List (Event F) → Pool F → Pool F
  run [] p = p
  run (e ∷ es) p = run es (step e p)

-- Metrics().
unfoldable pub snapshot : Metrics → MetricsSnapshot
snapshot m = record {
  active_workers = m.active_workers;
  busy_workers = m.busy_workers;
  queued_critical = m.queued_critical;
  queued_normal = m.queued_normal;
  queued_low = m.queued_low;
  completed = m.completed;
  errors = m.errors;
  avg_latency_ms = if ltb 0 m.total_completed then m.total_latency_ms / m.total_completed else 0;
}
