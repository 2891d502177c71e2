-- ===== src/Scheduler/ResultPipeline.antt =====
-- backend/internal/scheduler/result_pipeline.go: poll results are collected into batches, and each
-- batch is stored, broadcast and handed to the alert engine.
pub mod Batch
pub mod Storage
pub mod Statuses
pub mod Run
mod Delivery
mod Batches
mod Examples
