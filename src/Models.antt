-- ===== src/Models.antt =====
-- coordinator_api/internal/store/models: the rows of jobs, workflow instances, nodes and events.
pub mod Status
pub mod Job
pub mod Workflow
pub mod Samples
