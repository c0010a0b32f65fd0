-- ===== src/JobControl.antt =====
-- coordinator_api/internal/jobcontrol: cancelling, killing and retrying jobs and workflows.
pub mod Cancel
pub mod Retry
pub mod Spares
pub mod Race
pub mod Nodes
pub mod Cascade
pub mod Clone
pub mod Outcome
mod Examples
