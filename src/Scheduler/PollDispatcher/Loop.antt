-- ===== src/Scheduler/PollDispatcher/Loop.antt =====
-- The loop of dispatchDue in poll_dispatcher.go: it ends, and what it has done then.
pub mod Entry
pub mod Step
pub mod Total
pub mod Due
pub mod Hang
