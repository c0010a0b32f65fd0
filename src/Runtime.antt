-- ===== src/Runtime.antt =====
-- coordinator_api/internal/worker/workflow_runtime.go: from nodes and their dependencies to jobs.
pub mod Decide
pub mod Build
pub mod Evaluate
pub mod Vars
pub mod WriteOnce
pub mod Create
pub mod Expansion
pub mod Described
pub mod Triggers
pub mod Triggered
pub mod Completion
pub mod Keeps
pub mod Steps
pub mod Turns
pub mod Status
pub mod Groups
pub mod Ready
pub mod Conditions
pub mod Progress
mod Examples
mod TriggerRuns
