-- ===== src/Scheduler/WorkerPool/Moves.antt =====
-- What a step of a worker and Enqueue of worker_pool.go do to the counters and the queues.
use rayavriti_netmonitor.Common.{
  one_if, ℕ, ◌+◌, ◌≤◌, ◌≡◌, Bool, true, false, [], ◌∷◌, length, length-append, arith,
}
use rayavriti_netmonitor.Scheduler.Types.{PollJob, PollResult}
use rayavriti_netmonitor.Scheduler.WorkerPool.Queues.{Queues, enqueue}
use rayavriti_netmonitor.Scheduler.WorkerPool.Workers.{
  at_critical, at_normal, at_low, Stage, polled, lowered, totalled, timed, completed, checked,
  Phase, starting, looping, trying_critical, trying_normal, waiting, received, counted, executing,
  finishing, returned, Worker, Choice, from_critical, from_normal, from_low, from_stop, step_phase,
}

module _ {F : Type 0} where
  -- The worker has received a job from a queue whose counter it has not lowered.
  abbrev pub in_critical : Phase F → Bool
  in_critical (received at_critical job) = true
  in_critical _ = false

  abbrev pub in_normal : Phase F → Bool
  in_normal (received at_normal job) = true
  in_normal _ = false

  abbrev pub in_low : Phase F → Bool
  in_low (received at_low job) = true
  in_low _ = false

  -- It is counted busy.
  abbrev pub in_busy : Phase F → Bool
  in_busy (executing job) = true
  in_busy (finishing polled job r ms) = true
  in_busy _ = false

  -- It is counted active.
  abbrev pub in_active : Phase F → Bool
  in_active starting = false
  in_active returned = false
  in_active _ = true

  -- Its job is in `TotalCompleted` and not in `Completed`.
  abbrev pub in_totalled : Phase F → Bool
  in_totalled (finishing totalled job r ms) = true
  in_totalled (finishing timed job r ms) = true
  in_totalled _ = false

  -- Its job is in `Completed`, and its error is not looked at, or its result is not delivered.
  abbrev pub in_unchecked : Phase F → Bool
  in_unchecked (finishing completed job r ms) = true
  in_unchecked _ = false

  abbrev pub in_undelivered : Phase F → Bool
  in_undelivered (finishing completed job r ms) = true
  in_undelivered (finishing checked job r ms) = true
  in_undelivered _ = false

  abbrev pub by_phase : (Phase F → Bool) → Worker F → Bool
  by_phase p w = p w.phase

-- Each queue is within its capacity.
pub record QueuesFit (q : Queues) : Type 0 where
  pub critical_fits : length q.critical.jobs ≤ q.critical.capacity
  pub normal_fits : length q.normal.jobs ≤ q.normal.capacity
  pub low_fits : length q.low.jobs ≤ q.low.capacity

pub enqueue-QueuesFit : (job : PollJob) (q : Queues) → QueuesFit q → QueuesFit (enqueue job q).0
unfolding enqueue
enqueue-QueuesFit job q v = ground (
  arith,
  length-append q.critical.jobs (job ∷ []),
  length-append q.normal.jobs (job ∷ []),
  length-append q.low.jobs (job ∷ []),
)

-- The counters that are lowered in a phase are positive.
pub record Allowed {F : Type 0} (f : Phase F) (q : Queues) : Type 0 where
  pub active : one_if (in_active f) ≤ q.metrics.active_workers
  pub busy : one_if (in_busy f) ≤ q.metrics.busy_workers
  pub critical : one_if (in_critical f) ≤ q.metrics.queued_critical
  pub normal : one_if (in_normal f) ≤ q.metrics.queued_normal
  pub low : one_if (in_low f) ≤ q.metrics.queued_low

-- What a step of a worker does to each counter, next to the phase of the worker.
pub record Moves {F : Type 0} (f : Phase F) (q : Queues) (g : Phase F) (r : Queues) : Type 0 where
  pub busy :
      r.metrics.busy_workers + one_if (in_busy f) ≡ q.metrics.busy_workers + one_if (in_busy g)
  pub active :
      r.metrics.active_workers + one_if (in_active f)
      ≡ q.metrics.active_workers + one_if (in_active g)
  pub critical :
      r.metrics.queued_critical + length q.critical.jobs + one_if (in_critical f)
      ≡ q.metrics.queued_critical + length r.critical.jobs + one_if (in_critical g)
  pub normal :
      r.metrics.queued_normal + length q.normal.jobs + one_if (in_normal f)
      ≡ q.metrics.queued_normal + length r.normal.jobs + one_if (in_normal g)
  pub low :
      r.metrics.queued_low + length q.low.jobs + one_if (in_low f)
      ≡ q.metrics.queued_low + length r.low.jobs + one_if (in_low g)
  pub total :
      r.metrics.total_completed + q.metrics.completed + one_if (in_totalled f)
      ≡ q.metrics.total_completed + r.metrics.completed + one_if (in_totalled g)
  pub completed :
      r.metrics.completed + one_if (in_undelivered f)
      ≡ q.metrics.completed + one_if (in_undelivered g)
  pub errors :
      r.metrics.errors + one_if (in_unchecked g) + q.metrics.completed
      ≤ q.metrics.errors + one_if (in_unchecked f) + r.metrics.completed
  pub fit : QueuesFit q → QueuesFit r

module _ {F : Type 0} where
  finish_stage-Moves :
      (s : Stage) (job : PollJob) (res : PollResult F) (ms : ℕ) (c : Choice) (h : Bool) (n : ℕ)
      (q : Queues)
      → Allowed (finishing s job res ms) q
      → let (w, r) = step_phase (finishing s job res ms) c h n q in
        Moves (finishing s job res ms) q w.phase r
  unfolding step_phase
  finish_stage-Moves polled job res ms c h n q a = ground arith
  finish_stage-Moves lowered job res ms c h n q a = ground arith
  finish_stage-Moves totalled job res ms c h n q a = ground arith
  finish_stage-Moves timed job res ms c h n q a = ground arith
  finish_stage-Moves completed job res ms c h n q a = ground arith
  finish_stage-Moves checked job res ms c h n q a = ground arith

  pub step_phase-Moves :
      (f : Phase F) (c : Choice) (h : Bool) (n : ℕ) (q : Queues)
      → Allowed f q
      → Moves f q (step_phase f c h n q).0.phase (step_phase f c h n q).1
  unfolding step_phase
  step_phase-Moves starting c h n q a = ground arith
  step_phase-Moves looping c h n q a = ground arith
  step_phase-Moves trying_critical c h n q a = ground arith
  step_phase-Moves trying_normal from_critical h n q a = ground arith
  step_phase-Moves trying_normal c h n q a = ground arith
  step_phase-Moves waiting from_critical h n q a = ground arith
  step_phase-Moves waiting from_normal h n q a = ground arith
  step_phase-Moves waiting from_low h n q a = ground arith
  step_phase-Moves waiting from_stop h n q a = ground arith
  step_phase-Moves (received at_critical job) c h n q a = ground arith
  step_phase-Moves (received at_normal job) c h n q a = ground arith
  step_phase-Moves (received at_low job) c h n q a = ground arith
  step_phase-Moves (counted job) c h n q a = ground arith
  step_phase-Moves (executing job) c h n q a = ground arith
  step_phase-Moves (finishing s job r ms) c h n q a = finish_stage-Moves s job r ms c h n q a
  step_phase-Moves returned c h n q a = ground arith

-- Enqueue leaves the workers' counters alone, and counts the job where it queues it.
pub record Unchanged (q r : Queues) : Type 0 where
  pub busy : r.metrics.busy_workers ≡ q.metrics.busy_workers
  pub active : r.metrics.active_workers ≡ q.metrics.active_workers
  pub completed : r.metrics.completed ≡ q.metrics.completed
  pub total : r.metrics.total_completed ≡ q.metrics.total_completed
  pub errors : r.metrics.errors ≡ q.metrics.errors
  pub critical :
      r.metrics.queued_critical + length q.critical.jobs
      ≡ q.metrics.queued_critical + length r.critical.jobs
  pub normal :
      r.metrics.queued_normal + length q.normal.jobs
      ≡ q.metrics.queued_normal + length r.normal.jobs
  pub low : r.metrics.queued_low + length q.low.jobs ≡ q.metrics.queued_low + length r.low.jobs

pub enqueue-Unchanged : (job : PollJob) (q : Queues) → Unchanged q (enqueue job q).0
unfolding enqueue
enqueue-Unchanged job q = ground (
  arith,
  length-append q.critical.jobs (job ∷ []),
  length-append q.normal.jobs (job ∷ []),
  length-append q.low.jobs (job ∷ []),
)
