-- ===== src/Scheduler/WorkerPool.antt =====
-- backend/internal/scheduler/worker_pool.go: three bounded priority queues, and workers that take
-- jobs from them. An action of a goroutine is a step of the pool; a schedule is a list of steps.
pub mod Queues
pub mod Workers
pub mod Moves
pub mod Accounting
pub mod Conservation
pub mod Shutdown
mod Examples
