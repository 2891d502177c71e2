-- ===== src/Scheduler/PollDispatcher.antt =====
-- backend/internal/scheduler/poll_dispatcher.go: which device is polled next, and when.
pub mod Defs
pub mod Dispatch
pub mod Schedule
pub mod Invariant
pub mod Calls
pub mod Loop
mod Examples
