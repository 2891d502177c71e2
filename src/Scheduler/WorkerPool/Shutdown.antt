-- ===== src/Scheduler/WorkerPool/Shutdown.antt =====
-- Stop of worker_pool.go: what a worker may still do once it is told to stop.
use rayavriti_netmonitor.Common.{
  one_if, ℕ, ◌+◌, ◌≤◌, ◌≡◌, refl, Bool, true, false, List, [], ◌∷◌, get_elem?, count_if,
  count_if-set, Option, none, some, arith, ◌∙◌,
}
use rayavriti_netmonitor.Scheduler.Types.{PollJob, PollResult}
use rayavriti_netmonitor.Scheduler.WorkerPool.Queues.{Queues}
use rayavriti_netmonitor.Scheduler.WorkerPool.Workers.{
  Level, at_critical, at_normal, at_low, lower, with_metrics, Stage, polled, lowered, totalled,
  timed, completed, checked, Phase, starting, looping, trying_critical, trying_normal, waiting,
  received, counted, executing, finishing, returned, Worker, at_phase, Choice, from_critical,
  from_normal, from_low, from_stop, Outcome, Pool, Event, enqueues, steps, finishes, delivers,
  stops, cancels, step_phase, finish_job, step_worker, finish_worker, deliver_result,
  deliver_worker, step, run, safe_execute,
}
use rayavriti_netmonitor.Scheduler.WorkerPool.Moves.{by_phase, enqueue-Unchanged}

module _ {F : Type 0} where
  -- A worker that is past the check at the top of its loop.
  abbrev pub may_take : Phase F → Bool
  may_take trying_critical = true
  may_take trying_normal = true
  may_take waiting = true
  may_take _ = false

  -- A worker with a job that is not counted in `Completed`.
  abbrev pub carries : Phase F → Bool
  carries (received level job) = true
  carries (counted job) = true
  carries (executing job) = true
  carries (finishing completed job r ms) = false
  carries (finishing checked job r ms) = false
  carries (finishing stage job r ms) = true
  carries _ = false

  -- The jobs that the workers took so far.
  abbrev pub taken : Pool F → ℕ
  taken p = p.queues.metrics.completed + count_if (by_phase carries) p.workers

  -- With the counter, what a worker that is told to stop has taken or may still take.
  abbrev credit : Phase F → Queues → ℕ
  credit f q = q.metrics.completed + one_if (carries f) + one_if (may_take f)

  finish_stage-credit :
      (s : Stage) (job : PollJob) (res : PollResult F) (ms : ℕ) (c : Choice) (n : ℕ) (q : Queues)
      → let (w, r) = step_phase (finishing s job res ms) c true n q in
        credit w.phase r ≤ credit (finishing s job res ms) q
  unfolding step_phase
  finish_stage-credit polled job res ms c n q = ground arith
  finish_stage-credit lowered job res ms c n q = ground arith
  finish_stage-credit totalled job res ms c n q = ground arith
  finish_stage-credit timed job res ms c n q = ground arith
  finish_stage-credit completed job res ms c n q = ground arith
  finish_stage-credit checked job res ms c n q = ground arith

  step_phase-credit :
      (f : Phase F) (c : Choice) (n : ℕ) (q : Queues)
      → let (w, r) = step_phase f c true n q in credit w.phase r ≤ credit f q
  unfolding step_phase
  step_phase-credit starting c n q = ground arith
  step_phase-credit looping c n q = ground arith
  step_phase-credit trying_critical c n q = ground arith
  step_phase-credit trying_normal from_critical n q = ground arith
  step_phase-credit trying_normal c n q = ground arith
  step_phase-credit waiting from_critical n q = ground arith
  step_phase-credit waiting from_normal n q = ground arith
  step_phase-credit waiting from_low n q = ground arith
  step_phase-credit waiting from_stop n q = ground arith
  step_phase-credit (received level job) c n q = lowered_completed level q
    where
      lowered_completed :
          (l : Level) (q : Queues)
          → credit (counted job) (with_metrics q (lower l q.metrics))
            ≤ credit (received level job) q
      lowered_completed at_critical q = ground arith
      lowered_completed at_normal q = ground arith
      lowered_completed at_low q = ground arith
  step_phase-credit (counted job) c n q = ground arith
  step_phase-credit (executing job) c n q = ground arith
  step_phase-credit (finishing s job r ms) c n q = finish_stage-credit s job r ms c n q
  step_phase-credit returned c n q = ground arith

  abbrev pub pending : Pool F → ℕ
  pending p = taken p + count_if (by_phase may_take) p.workers

  step_worker-pending :
      (i : ℕ) (c : Choice) (o : Option (Worker F)) (p : Pool F)
      → get_elem? p.workers i ≡ o
      → p.stopping ≡ true
      → pending (step_worker i c o p) ≤ pending p
  unfolding step_worker
  step_worker-pending i c none p e h = omega arith
  step_worker-pending i c (some w) p e h =
      let x = (step_phase w.phase c true w.fairness_counter p.queues).0 in
      rw h (
        omega (
          arith,
          step_phase-credit w.phase c w.fairness_counter p.queues,
          count_if-set (by_phase may_take) p.workers i w x e,
          count_if-set (by_phase carries) p.workers i w x e,
        ))

  finish_job-pending :
      (i n : ℕ) (f : Phase F) (o : Outcome F) (ms : ℕ) (p : Pool F)
      → get_elem? p.workers i ≡ some (at_phase n f)
      → pending (finish_job i n f o ms p) ≤ pending p
  unfolding finish_job
  finish_job-pending i n (executing job) o ms p e =
      let x = at_phase n (finishing polled job (safe_execute job o) ms) in
      let w : Worker F = at_phase n (executing job) in
      omega (
        arith,
        count_if-set (by_phase may_take) p.workers i w x e,
        count_if-set (by_phase carries) p.workers i w x e,
      )
  finish_job-pending i n _ o ms p e = omega arith

  finish_worker-pending :
      (i : ℕ) (o : Outcome F) (ms : ℕ) (w : Option (Worker F)) (p : Pool F)
      → get_elem? p.workers i ≡ w
      → pending (finish_worker i o ms w p) ≤ pending p
  unfolding finish_worker
  finish_worker-pending i o ms none p e = omega arith
  finish_worker-pending i o ms (some w) p e =
      finish_job-pending i w.fairness_counter w.phase o ms p e

  deliver_result-pending :
      (i n : ℕ) (f : Phase F) (p : Pool F)
      → get_elem? p.workers i ≡ some (at_phase n f)
      → pending (deliver_result i n f p) ≤ pending p
  unfolding deliver_result
  deliver_result-pending i n (finishing checked job r ms) p e =
      let x : Worker F = at_phase n looping in
      let w = at_phase n (finishing checked job r ms) in
      omega (
        arith,
        count_if-set (by_phase may_take) p.workers i w x e,
        count_if-set (by_phase carries) p.workers i w x e,
      )
  deliver_result-pending i n _ p e = omega arith

  deliver_worker-pending :
      (i : ℕ) (w : Option (Worker F)) (p : Pool F)
      → get_elem? p.workers i ≡ w
      → pending (deliver_worker i w p) ≤ pending p
  unfolding deliver_worker
  deliver_worker-pending i none p e = omega arith
  deliver_worker-pending i (some w) p e = deliver_result-pending i w.fairness_counter w.phase p e

  step-pending : (e : Event F) (p : Pool F) → p.stopping ≡ true → pending (step e p) ≤ pending p
  unfolding step
  step-pending (enqueues job) p h = omega (arith, (enqueue-Unchanged job p.queues).completed)
  step-pending (steps i c) p h = step_worker-pending i c (get_elem? p.workers i) p refl h
  step-pending (finishes i o ms) p h = finish_worker-pending i o ms (get_elem? p.workers i) p refl
  step-pending (delivers i) p h = deliver_worker-pending i (get_elem? p.workers i) p refl
  step-pending stops p h = omega arith
  step-pending cancels p h = omega arith

  step_worker-stopping :
      (i : ℕ) (c : Choice) (o : Option (Worker F)) (p : Pool F)
      → (step_worker i c o p).stopping ≡ p.stopping
  unfolding step_worker
  step_worker-stopping i c none p = refl
  step_worker-stopping i c (some w) p = refl

  finish_worker-stopping :
      (i : ℕ) (o : Outcome F) (ms : ℕ) (w : Option (Worker F)) (p : Pool F)
      → (finish_worker i o ms w p).stopping ≡ p.stopping
  unfolding finish_worker finish_job
  finish_worker-stopping i o ms none p = refl
  finish_worker-stopping i o ms (some w) p = of_phase w.fairness_counter w.phase
    where
      of_phase : (n : ℕ) (f : Phase F) → (finish_job i n f o ms p).stopping ≡ p.stopping
      of_phase n (executing job) = refl
      of_phase n _ = refl

  deliver_worker-stopping :
      (i : ℕ) (w : Option (Worker F)) (p : Pool F) → (deliver_worker i w p).stopping ≡ p.stopping
  unfolding deliver_worker deliver_result
  deliver_worker-stopping i none p = refl
  deliver_worker-stopping i (some w) p = of_phase w.fairness_counter w.phase
    where
      of_phase : (n : ℕ) (f : Phase F) → (deliver_result i n f p).stopping ≡ p.stopping
      of_phase n (finishing checked job r ms) = refl
      of_phase n _ = refl

  step-stopping : (e : Event F) (p : Pool F) → p.stopping ≡ true → (step e p).stopping ≡ true
  unfolding step
  step-stopping (enqueues job) p h = h
  step-stopping (steps i c) p h = step_worker-stopping i c (get_elem? p.workers i) p ∙ h
  step-stopping (finishes i o ms) p h = finish_worker-stopping i o ms (get_elem? p.workers i) p ∙ h
  step-stopping (delivers i) p h = deliver_worker-stopping i (get_elem? p.workers i) p ∙ h
  step-stopping stops p h = refl
  step-stopping cancels p h = h

  run-pending :
      (es : List (Event F)) (p : Pool F) → p.stopping ≡ true → pending (run es p) ≤ pending p
  unfolding run
  run-pending [] p h = omega arith
  run-pending (e ∷ es) p h =
      omega (arith, run-pending es (step e p) (step-stopping e p h), step-pending e p h)

  -- Once Stop has closed the channel, whatever happens then, the workers take at most one further
  -- job for each worker that had already passed the check at the top of its loop.
  pub stop_bounds_taken :
      (es : List (Event F)) (p : Pool F)
      → p.stopping ≡ true
      → taken (run es p) ≤ taken p + count_if (by_phase may_take) p.workers
  stop_bounds_taken es p h = omega (arith, run-pending es p h)
