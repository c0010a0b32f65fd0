-- ===== src/Scheduler.antt =====
-- coordinator_api/internal/scheduler/priority_scheduler.go: queues, routing rules, priorities.
pub mod Types
pub mod Rules
pub mod State
pub mod Defaults
pub mod Submit
pub mod Sorted
pub mod Contains
pub mod Routes
pub mod Bounds
mod Examples
