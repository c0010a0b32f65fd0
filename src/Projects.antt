-- ===== src/Projects.antt =====
-- Which events of a repository start jobs: `ShouldProcessEvent` of store/models/project.go, and the
-- translation of events in vcs/event_types.go.
pub mod Events
pub mod Filter
mod Examples
