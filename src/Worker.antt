-- ===== src/Worker.antt =====
-- coordinator_api/internal/worker: the worker that claims tasks and runs jobs, its retry policy, and
-- what it reads of job specifications.
pub mod Claim
pub mod Invariant
pub mod Retry
pub mod Attempts
pub mod Hooks
pub mod Untouched
pub mod Unclaimed
pub mod Outcome
pub mod Landing
pub mod Reaper
pub mod Cancelled
mod Examples
