-- ===== src/Authz.antt =====
-- coordinator_api/internal/authz: who may do what, and who may see what.
pub mod Types
pub mod Principal
pub mod Resolver
pub mod Capabilities
pub mod Visibility
pub mod Cache
pub mod Filters
pub mod Rule
pub mod Tiers
mod Examples
