-- ===== src/Vcs.antt =====
-- coordinator_api/internal/vcs: what is read of a repository's URL.
pub mod Urls
pub mod Normal
mod Examples
