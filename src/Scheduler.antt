-- ===== src/Scheduler.antt =====
-- backend/internal/scheduler: polling of the devices.
pub mod Types
pub mod DeviceStateTracker
pub mod WorkerPool
pub mod PollDispatcher
pub mod ResultPipeline
pub mod Control
