-- ===== src/Scheduler/WorkerPool/Conservation.antt =====
-- No job of worker_pool.go is lost or made up, over every schedule.
use rayavriti_netmonitor.Common.{
  one_if, ℕ, ◌+◌, ◌≡◌, refl, Bool, false, ◌||◌, List, [], ◌∷◌, get_elem?, count_if, count_if-set,
  count_if-append, if◌then◌else◌, Option, none, some, arith,
}
use rayavriti_netmonitor.Scheduler.Types.{PollJob, PollResult}
use rayavriti_netmonitor.Scheduler.WorkerPool.Queues.{
  Queues, enqueue, WorkerPoolConfig, new_queues, worker_total,
}
use rayavriti_netmonitor.Scheduler.WorkerPool.Workers.{
  Stage, polled, lowered, totalled, timed, completed, checked, Phase, starting, looping,
  trying_critical, trying_normal, waiting, received, counted, executing, finishing, returned,
  Worker, at_phase, Choice, from_critical, from_normal, from_low, from_stop, Outcome, Pool, Event,
  enqueues, steps, finishes, delivers, stops, cancels, step_phase, finish_job, step_worker,
  finish_worker, deliver_result, deliver_worker, step, run, start, safe_execute,
}
use rayavriti_netmonitor.Scheduler.WorkerPool.Moves.{by_phase}
use rayavriti_netmonitor.Scheduler.WorkerPool.Accounting.{none_at_start}

-- The jobs that pass a test: those in the queues, and those that a worker has.
abbrev pub queued : (PollJob → Bool) → Queues → ℕ
queued t q = count_if t q.critical.jobs + count_if t q.normal.jobs + count_if t q.low.jobs

enqueue-queued :
    (t : PollJob → Bool) (job : PollJob) (q : Queues)
    → queued t (enqueue job q).0 ≡ queued t q + (if (enqueue job q).1 then one_if (t job) else 0)
unfolding enqueue
enqueue-queued t job q = ground (
  arith,
  count_if-append t q.critical.jobs (job ∷ []),
  count_if-append t q.normal.jobs (job ∷ []),
  count_if-append t q.low.jobs (job ∷ []),
)

module _ {F : Type 0} (t : PollJob → Bool) where
  abbrev pub has_job : Phase F → Bool
  has_job (received level job) = t job
  has_job (counted job) = t job
  has_job (executing job) = t job
  has_job (finishing stage job r ms) = t job
  has_job _ = false

  abbrev pub held : Pool F → ℕ
  held p = count_if (by_phase has_job) p.workers

  -- Whether a worker is about to finish with such a job.
  abbrev done_in : Phase F → Bool
  done_in (finishing checked job r ms) = t job
  done_in _ = false

  abbrev done_by : Option (Worker F) → Bool
  done_by none = false
  done_by (some w) = done_in w.phase

  -- How many calls of Enqueue with such a job in a schedule returned true.
  unfoldable pub accepted : List (Event F) → Pool F → ℕ
  accepted [] p = 0
  accepted (enqueues job ∷ es) p =
      (if (enqueue job p.queues).1 then one_if (t job) else 0) + accepted es (step (enqueues job) p)
  accepted (e ∷ es) p = accepted es (step e p)

  -- How many such jobs were brought to their end in a schedule, after all their counters.
  unfoldable pub finished : List (Event F) → Pool F → ℕ
  finished [] p = 0
  finished (delivers i ∷ es) p =
      one_if (done_by (get_elem? p.workers i)) + finished es (step (delivers i) p)
  finished (e ∷ es) p = finished es (step e p)

  finish_stage-keeps :
      (s : Stage) (job : PollJob) (res : PollResult F) (ms : ℕ) (c : Choice) (h : Bool) (n : ℕ)
      (q : Queues)
      → let (w, r) = step_phase (finishing s job res ms) c h n q in
        queued t r + one_if (has_job w.phase) ≡ queued t q + one_if (t job)
  unfolding step_phase
  finish_stage-keeps polled job res ms c h n q = refl
  finish_stage-keeps lowered job res ms c h n q = refl
  finish_stage-keeps totalled job res ms c h n q = refl
  finish_stage-keeps timed job res ms c h n q = refl
  finish_stage-keeps completed job res ms c h n q = refl
  finish_stage-keeps checked job res ms c h n q = refl

  -- A job that leaves a queue is one that the worker has.
  step_phase-keeps :
      (f : Phase F) (c : Choice) (h : Bool) (n : ℕ) (q : Queues)
      → queued t (step_phase f c h n q).1 + one_if (has_job (step_phase f c h n q).0.phase)
        ≡ queued t q + one_if (has_job f)
  unfolding step_phase
  step_phase-keeps starting c h n q = refl
  step_phase-keeps looping c h n q = ground arith
  step_phase-keeps trying_critical c h n q = ground arith
  step_phase-keeps trying_normal from_critical h n q = ground arith
  step_phase-keeps trying_normal c h n q = ground arith
  step_phase-keeps waiting from_critical h n q = ground arith
  step_phase-keeps waiting from_normal h n q = ground arith
  step_phase-keeps waiting from_low h n q = ground arith
  step_phase-keeps waiting from_stop h n q = ground arith
  step_phase-keeps (received level job) c h n q = refl
  step_phase-keeps (counted job) c h n q = refl
  step_phase-keeps (executing job) c h n q = refl
  step_phase-keeps (finishing s job r ms) c h n q = finish_stage-keeps s job r ms c h n q
  step_phase-keeps returned c h n q = refl

  step_worker-conserved :
      (i : ℕ) (c : Choice) (o : Option (Worker F)) (p : Pool F)
      → get_elem? p.workers i ≡ o
      → queued t (step_worker i c o p).queues + held (step_worker i c o p)
        ≡ queued t p.queues + held p
  unfolding step_worker
  step_worker-conserved i c none p e = refl
  step_worker-conserved i c (some w) p e =
      let h : Bool = p.stopping || p.cancelled in
      let x = (step_phase w.phase c h w.fairness_counter p.queues).0 in
      omega (
        arith,
        step_phase-keeps w.phase c h w.fairness_counter p.queues,
        count_if-set (by_phase has_job) p.workers i w x e,
      )

  finish_job-conserved :
      (i n : ℕ) (f : Phase F) (o : Outcome F) (ms : ℕ) (p : Pool F)
      → get_elem? p.workers i ≡ some (at_phase n f)
      → queued t (finish_job i n f o ms p).queues + held (finish_job i n f o ms p)
        ≡ queued t p.queues + held p
  unfolding finish_job
  finish_job-conserved i n (executing job) o ms p e = omega (
    arith,
    count_if-set (by_phase has_job) p.workers i (at_phase n (executing job))
        (at_phase n (finishing polled job (safe_execute job o) ms)) e,
  )
  finish_job-conserved i n _ o ms p e = refl

  finish_worker-conserved :
      (i : ℕ) (o : Outcome F) (ms : ℕ) (w : Option (Worker F)) (p : Pool F)
      → get_elem? p.workers i ≡ w
      → queued t (finish_worker i o ms w p).queues + held (finish_worker i o ms w p)
        ≡ queued t p.queues + held p
  unfolding finish_worker
  finish_worker-conserved i o ms none p e = refl
  finish_worker-conserved i o ms (some w) p e =
      finish_job-conserved i w.fairness_counter w.phase o ms p e

  deliver_result-conserved :
      (i n : ℕ) (f : Phase F) (p : Pool F)
      → get_elem? p.workers i ≡ some (at_phase n f)
      → queued t (deliver_result i n f p).queues
          + held (deliver_result i n f p)
          + one_if (done_in f)
        ≡ queued t p.queues + held p
  unfolding deliver_result
  deliver_result-conserved i n (finishing checked job r ms) p e = omega (
    arith,
    count_if-set (by_phase has_job) p.workers i (at_phase n (finishing checked job r ms))
        (at_phase n looping) e,
  )
  deliver_result-conserved i n _ p e = omega arith

  deliver_worker-conserved :
      (i : ℕ) (w : Option (Worker F)) (p : Pool F)
      → get_elem? p.workers i ≡ w
      → queued t (deliver_worker i w p).queues + held (deliver_worker i w p) + one_if (done_by w)
        ≡ queued t p.queues + held p
  unfolding deliver_worker
  deliver_worker-conserved i none p e = omega arith
  deliver_worker-conserved i (some w) p e =
      deliver_result-conserved i w.fairness_counter w.phase p e

  run_conserves :
      (es : List (Event F)) (p : Pool F)
      → queued t (run es p).queues + held (run es p) + finished es p
        ≡ queued t p.queues + held p + accepted es p
  unfolding run accepted finished step
  run_conserves [] p = omega arith
  run_conserves (enqueues job ∷ es) p =
      omega (arith, run_conserves es (step (enqueues job) p), enqueue-queued t job p.queues)
  run_conserves (steps i c ∷ es) p = omega (
    arith,
    run_conserves es (step (steps i c) p),
    step_worker-conserved i c (get_elem? p.workers i) p refl,
  )
  run_conserves (finishes i o ms ∷ es) p = omega (
    arith,
    run_conserves es (step (finishes i o ms) p),
    finish_worker-conserved i o ms (get_elem? p.workers i) p refl,
  )
  run_conserves (delivers i ∷ es) p = omega (
    arith,
    run_conserves es (step (delivers i) p),
    deliver_worker-conserved i (get_elem? p.workers i) p refl,
  )
  run_conserves (stops ∷ es) p = omega (arith, run_conserves es (step stops p))
  run_conserves (cancels ∷ es) p = omega (arith, run_conserves es (step cancels p))

  -- In every schedule of a started pool, and for any test of jobs, as many calls of Enqueue with a job
  -- that passes it returned true as such jobs wait in a queue, are in the hands of a worker or were
  -- brought to their end: no job is lost, and none is replaced by another or executed twice.
  pub accepted_accounted :
      (cfg : WorkerPoolConfig) (handled : Bool) (es : List (Event F))
      → queued t (run es (start cfg handled)).queues
          + held (run es (start cfg handled))
          + finished es (start cfg handled)
        ≡ accepted es (start cfg handled)
  unfolding start new_queues worker_total
  accepted_accounted cfg handled es =
      omega
        (arith, run_conserves es (start cfg handled), none_at_start has_job (worker_total cfg) refl)
