-- ===== src/Secrets.antt =====
-- coordinator_api/internal/secrets/masker.go: secret values are taken out of logs and output; and
-- worker/secret_authorization.go: which secrets a job may read.
pub mod Masker
pub mod Replace
pub mod Absent
pub mod Grants
pub mod Access
pub mod Allowed
mod Examples
