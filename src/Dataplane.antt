-- ===== src/Dataplane.antt =====
-- The credential endpoint (bridge/dataplane).
pub mod CacheTtl
pub mod Matching
pub mod Limiter
pub mod Oidc
pub mod Validation
pub mod KeySet
pub mod Audit
pub mod Credentials
pub mod Handler
pub mod Serve
