-- ===== src/Scheduler/WorkerPool/Queues.antt =====
-- worker_pool.go: the configuration, the queues and Enqueue. A buffered channel is a list with a
-- capacity, its front the next job to be received.
use rayavriti_netmonitor.Common.{
  ℕ, ◌+◌, ◌-◌, Bool, true, false, List, [], ◌∷◌, ◌++◌, ltb, ◌==◌, length, if◌then◌else◌, Option,
  none, some,
}
use rayavriti_netmonitor.Common.Int.{ℤ, pos, is_nonpositive, to_nat}
use rayavriti_netmonitor.Scheduler.Types.{PollJob}

pub record WorkerPoolConfig : Type 0 where
  pub worker_count : ℤ
  pub max_worker_count : ℤ
  pub critical_queue_size : ℤ
  pub normal_queue_size : ℤ
  pub low_queue_size : ℤ

abbrev pub default_worker_pool_config : WorkerPoolConfig
default_worker_pool_config = record {
  worker_count = pos 32;
  max_worker_count = pos 64;
  critical_queue_size = pos 256;
  normal_queue_size = pos 1024;
  low_queue_size = pos 512;
}

-- A value that is not positive is replaced by the default.
abbrev pub or_default : ℤ → ℕ → ℕ
or_default n d = if is_nonpositive n then d else to_nat n

pub record Metrics : Type 0 where
  pub active_workers : ℕ
  pub busy_workers : ℕ
  pub queued_critical : ℕ
  pub queued_normal : ℕ
  pub queued_low : ℕ
  pub completed : ℕ
  pub errors : ℕ
  pub total_latency_ms : ℕ
  pub total_completed : ℕ

-- A channel with its capacity.
pub record Queue : Type 0 where
  pub jobs : List PollJob
  pub capacity : ℕ

pub record Queues : Type 0 where
  pub critical : Queue
  pub normal : Queue
  pub low : Queue
  pub metrics : Metrics

-- `select { case q <- job: … default: … }`: a send that does not wait.
unfoldable pub try_send : PollJob → Queue → Option Queue
try_send job q =
    if ltb (length q.jobs) q.capacity then some (record q { jobs = q.jobs ++ job ∷ [] }) else none

-- The counter goes up before the send, and down again where the queue is full; between the two it
-- is not 0, so `-` is exact.
unfoldable pub enqueue_critical : Option Queue → Queues → Queues × Bool
enqueue_critical (some q) p = (
  record p {
    critical = q;
    metrics = record (p.metrics) { queued_critical = p.metrics.queued_critical + 1 };
  },
  true,
)
enqueue_critical none p = (
  record p { metrics = record (p.metrics) { queued_critical = p.metrics.queued_critical + 1 - 1 } },
  false,
)

unfoldable pub enqueue_normal : Option Queue → Queues → Queues × Bool
enqueue_normal (some q) p = (
  record p {
    normal = q;
    metrics = record (p.metrics) { queued_normal = p.metrics.queued_normal + 1 };
  },
  true,
)
enqueue_normal none p = (
  record p { metrics = record (p.metrics) { queued_normal = p.metrics.queued_normal + 1 - 1 } },
  false,
)

unfoldable pub enqueue_low : Option Queue → Queues → Queues × Bool
enqueue_low (some q) p = (
  record p { low = q; metrics = record (p.metrics) { queued_low = p.metrics.queued_low + 1 } },
  true,
)
enqueue_low none p =
    (record p { metrics = record (p.metrics) { queued_low = p.metrics.queued_low + 1 - 1 } }, false)

-- Enqueue: the job goes to the queue of its priority, or is dropped and false is returned.
unfoldable pub enqueue : PollJob → Queues → Queues × Bool
unfolding enqueue_critical enqueue_normal enqueue_low try_send
enqueue job p =
    if job.priority == 0
    then enqueue_critical (try_send job p.critical) p
    else if job.priority == 1
    then enqueue_normal (try_send job p.normal) p
    else enqueue_low (try_send job p.low) p

abbrev zero_metrics : Metrics
zero_metrics = record {
  active_workers = 0;
  busy_workers = 0;
  queued_critical = 0;
  queued_normal = 0;
  queued_low = 0;
  completed = 0;
  errors = 0;
  total_latency_ms = 0;
  total_completed = 0;
}

-- NewWorkerPool, its queues; the number of workers is `worker_total`.
unfoldable pub new_queues : WorkerPoolConfig → Queues
new_queues cfg = record {
  critical = record { jobs = []; capacity = or_default cfg.critical_queue_size 256 };
  normal = record { jobs = []; capacity = or_default cfg.normal_queue_size 1024 };
  low = record { jobs = []; capacity = or_default cfg.low_queue_size 512 };
  metrics = zero_metrics;
}

unfoldable pub worker_total : WorkerPoolConfig → ℕ
worker_total cfg = or_default cfg.worker_count 32

pub record MetricsSnapshot : Type 0 where
  pub active_workers : ℕ
  pub busy_workers : ℕ
  pub queued_critical : ℕ
  pub queued_normal : ℕ
  pub queued_low : ℕ
  pub completed : ℕ
  pub errors : ℕ
  pub avg_latency_ms : ℕ
