-- ===== src/Scheduler/WorkerPool/Accounting.antt =====
-- The counters of worker_pool.go against the queues and the workers, over every schedule.
use rayavriti_netmonitor.Common.{
  ℕ, ◌+◌, ◌≤◌, ◌≡◌, refl, Bool, true, false, ◌||◌, List, [], ◌∷◌, length, get_elem?, count_if,
  count_if-set, count_if-replicate, replicate, sym, count_if-get_elem?, length-append, Option, none,
  some, arith,
}
use rayavriti_netmonitor.Scheduler.WorkerPool.Queues.{WorkerPoolConfig, new_queues, worker_total}
use rayavriti_netmonitor.Scheduler.WorkerPool.Workers.{
  polled, checked, Phase, starting, looping, executing, finishing, Worker, at_phase, Choice,
  Outcome, Pool, Event, enqueues, steps, finishes, delivers, stops, cancels, step_phase, finish_job,
  step_worker, finish_worker, deliver_result, deliver_worker, step, run, start, safe_execute,
}
use rayavriti_netmonitor.Scheduler.WorkerPool.Moves.{
  in_critical, in_normal, in_low, in_busy, in_active, in_totalled, in_unchecked, in_undelivered,
  by_phase, QueuesFit, enqueue-QueuesFit, Allowed, step_phase-Moves, enqueue-Unchanged,
}

abbrev pub count_phase : {F : Type 0} → (Phase F → Bool) → Pool F → ℕ
count_phase t p = count_if (by_phase t) p.workers

pub record Inv {F : Type 0} (p : Pool F) : Type 0 where
  pub fit : QueuesFit p.queues
  pub critical :
      p.queues.metrics.queued_critical ≡ length p.queues.critical.jobs + count_phase in_critical p
  pub normal :
      p.queues.metrics.queued_normal ≡ length p.queues.normal.jobs + count_phase in_normal p
  pub low : p.queues.metrics.queued_low ≡ length p.queues.low.jobs + count_phase in_low p
  pub busy : p.queues.metrics.busy_workers ≡ count_phase in_busy p
  pub active : p.queues.metrics.active_workers ≡ count_phase in_active p
  pub total :
      p.queues.metrics.total_completed ≡ p.queues.metrics.completed + count_phase in_totalled p
  pub errors : p.queues.metrics.errors + count_phase in_unchecked p ≤ p.queues.metrics.completed
  pub completed :
      p.has_handler ≡ true
      → p.queues.metrics.completed ≡ length p.delivered + count_phase in_undelivered p

module _ {F : Type 0} where
  Inv-Allowed :
      (i : ℕ) (w : Worker F) (p : Pool F)
      → get_elem? p.workers i ≡ some w
      → Inv p
      → Allowed w.phase p.queues
  Inv-Allowed i w p e v = record {
    active = omega (arith, count_if-get_elem? (by_phase in_active) p.workers i w e, v.active);
    busy = omega (arith, count_if-get_elem? (by_phase in_busy) p.workers i w e, v.busy);
    critical = omega (arith, count_if-get_elem? (by_phase in_critical) p.workers i w e, v.critical);
    normal = omega (arith, count_if-get_elem? (by_phase in_normal) p.workers i w e, v.normal);
    low = omega (arith, count_if-get_elem? (by_phase in_low) p.workers i w e, v.low);
  }

  step_worker-Inv :
      (i : ℕ) (c : Choice) (o : Option (Worker F)) (p : Pool F)
      → get_elem? p.workers i ≡ o
      → Inv p
      → Inv (step_worker i c o p)
  unfolding step_worker
  step_worker-Inv i c none p e v = v
  step_worker-Inv i c (some w) p e v =
      let h : Bool = p.stopping || p.cancelled in
      let x = (step_phase w.phase c h w.fairness_counter p.queues).0 in
      let m = step_phase-Moves w.phase c h w.fairness_counter p.queues (Inv-Allowed i w p e v) in
      record {
        fit = m.fit v.fit;
        critical =
            omega (
              arith,
              m.critical,
              v.critical,
              count_if-set (by_phase in_critical) p.workers i w x e,
            );
        normal =
            omega (arith, m.normal, v.normal, count_if-set (by_phase in_normal) p.workers i w x e);
        low = omega (arith, m.low, v.low, count_if-set (by_phase in_low) p.workers i w x e);
        busy = omega (arith, m.busy, v.busy, count_if-set (by_phase in_busy) p.workers i w x e);
        active =
            omega (arith, m.active, v.active, count_if-set (by_phase in_active) p.workers i w x e);
        total =
            omega (arith, m.total, v.total, count_if-set (by_phase in_totalled) p.workers i w x e);
        errors =
            omega
              (arith, m.errors, v.errors, count_if-set (by_phase in_unchecked) p.workers i w x e);
        completed = λ handled. omega (
          arith,
          m.completed,
          v.completed handled,
          count_if-set (by_phase in_undelivered) p.workers i w x e,
        );
      }

  finish_job-Inv :
      (i n : ℕ) (f : Phase F) (o : Outcome F) (ms : ℕ) (p : Pool F)
      → get_elem? p.workers i ≡ some (at_phase n f)
      → Inv p
      → Inv (finish_job i n f o ms p)
  unfolding finish_job
  finish_job-Inv i n (executing job) o ms p e v =
      let x = at_phase n (finishing polled job (safe_execute job o) ms) in
      let w : Worker F = at_phase n (executing job) in
      record {
        fit = v.fit;
        critical = omega (arith, v.critical, count_if-set (by_phase in_critical) p.workers i w x e);
        normal = omega (arith, v.normal, count_if-set (by_phase in_normal) p.workers i w x e);
        low = omega (arith, v.low, count_if-set (by_phase in_low) p.workers i w x e);
        busy = omega (arith, v.busy, count_if-set (by_phase in_busy) p.workers i w x e);
        active = omega (arith, v.active, count_if-set (by_phase in_active) p.workers i w x e);
        total = omega (arith, v.total, count_if-set (by_phase in_totalled) p.workers i w x e);
        errors = omega (arith, v.errors, count_if-set (by_phase in_unchecked) p.workers i w x e);
        completed = λ handled.
            omega (
              arith,
              v.completed handled,
              count_if-set (by_phase in_undelivered) p.workers i w x e,
            );
      }
  finish_job-Inv i n _ o ms p e v = v

  finish_worker-Inv :
      (i : ℕ) (o : Outcome F) (ms : ℕ) (w : Option (Worker F)) (p : Pool F)
      → get_elem? p.workers i ≡ w
      → Inv p
      → Inv (finish_worker i o ms w p)
  unfolding finish_worker
  finish_worker-Inv i o ms none p e v = v
  finish_worker-Inv i o ms (some w) p e v = finish_job-Inv i w.fairness_counter w.phase o ms p e v

  deliver_result-Inv :
      (i n : ℕ) (f : Phase F) (p : Pool F)
      → get_elem? p.workers i ≡ some (at_phase n f)
      → Inv p
      → Inv (deliver_result i n f p)
  unfolding deliver_result
  deliver_result-Inv i n (finishing checked job r ms) p e v =
      let x : Worker F = at_phase n looping in
      let w = at_phase n (finishing checked job r ms) in
      record {
        fit = v.fit;
        critical = omega (arith, v.critical, count_if-set (by_phase in_critical) p.workers i w x e);
        normal = omega (arith, v.normal, count_if-set (by_phase in_normal) p.workers i w x e);
        low = omega (arith, v.low, count_if-set (by_phase in_low) p.workers i w x e);
        busy = omega (arith, v.busy, count_if-set (by_phase in_busy) p.workers i w x e);
        active = omega (arith, v.active, count_if-set (by_phase in_active) p.workers i w x e);
        total = omega (arith, v.total, count_if-set (by_phase in_totalled) p.workers i w x e);
        errors = omega (arith, v.errors, count_if-set (by_phase in_unchecked) p.workers i w x e);
        completed = λ handled. rw handled (
            omega (
              arith,
              v.completed handled,
              length-append p.delivered (r ∷ []),
              count_if-set (by_phase in_undelivered) p.workers i w x e,
            ));
      }
  deliver_result-Inv i n _ p e v = v

  deliver_worker-Inv :
      (i : ℕ) (w : Option (Worker F)) (p : Pool F)
      → get_elem? p.workers i ≡ w
      → Inv p
      → Inv (deliver_worker i w p)
  unfolding deliver_worker
  deliver_worker-Inv i none p e v = v
  deliver_worker-Inv i (some w) p e v = deliver_result-Inv i w.fairness_counter w.phase p e v

  pub step-Inv : (e : Event F) (p : Pool F) → Inv p → Inv (step e p)
  unfolding step
  step-Inv (enqueues job) p v =
      let s = enqueue-Unchanged job p.queues in
      record {
        fit = enqueue-QueuesFit job p.queues v.fit;
        critical = omega (arith, s.critical, v.critical);
        normal = omega (arith, s.normal, v.normal);
        low = omega (arith, s.low, v.low);
        busy = omega (arith, s.busy, v.busy);
        active = omega (arith, s.active, v.active);
        total = omega (arith, s.total, s.completed, v.total);
        errors = omega (arith, s.errors, s.completed, v.errors);
        completed = λ handled. omega (arith, s.completed, v.completed handled);
      }
  step-Inv (steps i c) p v = step_worker-Inv i c (get_elem? p.workers i) p refl v
  step-Inv (finishes i o ms) p v = finish_worker-Inv i o ms (get_elem? p.workers i) p refl v
  step-Inv (delivers i) p v = deliver_worker-Inv i (get_elem? p.workers i) p refl v
  step-Inv stops p v = assumption
  step-Inv cancels p v = assumption

  run-Inv : (es : List (Event F)) (p : Pool F) → Inv p → Inv (run es p)
  unfolding run
  run-Inv [] p v = v
  run-Inv (e ∷ es) p v = run-Inv es (step e p) (step-Inv e p v)

  pub none_at_start :
      (t : Phase F → Bool) (n : ℕ)
      → t starting ≡ false
      → count_if (by_phase t) (replicate n (at_phase 0 starting)) ≡ 0
  none_at_start t n h = ground (arith, h, count_if-replicate (by_phase t) n (at_phase 0 starting))

  pub start-Inv : (cfg : WorkerPoolConfig) (handled : Bool) → Inv (start {F = F} cfg handled)
  unfolding start new_queues worker_total
  start-Inv cfg handled = record {
    fit = omega arith;
    critical = omega (arith, none_at_start in_critical (worker_total cfg) refl);
    normal = omega (arith, none_at_start in_normal (worker_total cfg) refl);
    low = omega (arith, none_at_start in_low (worker_total cfg) refl);
    busy = sym (none_at_start in_busy (worker_total cfg) refl);
    active = sym (none_at_start in_active (worker_total cfg) refl);
    total = omega (arith, none_at_start in_totalled (worker_total cfg) refl);
    errors = omega (arith, none_at_start in_unchecked (worker_total cfg) refl);
    completed = λ h. omega (arith, none_at_start in_undelivered (worker_total cfg) refl);
  }

  -- In every schedule of a started pool in which each call of Enqueue is one step: no queue exceeds
  -- its capacity; the counter of each queue is its length and the workers that have received a job
  -- from it and not lowered the counter yet; `BusyWorkers` counts the workers that poll or have just
  -- done so, and `ActiveWorkers` those in the loop; `TotalCompleted` is `Completed` and the workers
  -- between the two counters; `Errors`, with the workers that are about to look at an error, is at
  -- most `Completed`; and if there is a result handler, `Completed` is the number of results handed to
  -- it and of the workers that are about to.
  pub run-start-Inv :
      (cfg : WorkerPoolConfig) (handled : Bool) (es : List (Event F))
      → Inv (run es (start cfg handled))
  run-start-Inv cfg handled es = run-Inv es (start cfg handled) (start-Inv cfg handled)
