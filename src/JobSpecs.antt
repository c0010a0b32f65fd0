-- ===== src/JobSpecs.antt =====
-- worker/job_spec.go: job specifications, their commands and overlays.
pub mod Command
pub mod Words
pub mod Merge
pub mod Overlays
pub mod RunLocal
mod Examples
