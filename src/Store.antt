-- ===== src/Store.antt =====
-- The database and Corndogs as the coordinator sees them: a state, and operations on it that may
-- fail (store/store_interface.go, store/postgres_store, corndogs/client.go).
pub mod World
pub mod Rows
pub mod Ensures
pub mod Triple
pub mod Leads
pub mod Samples
