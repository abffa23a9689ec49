-- ===== src/Tests.antt =====
-- The theorems at concrete inputs.
pub mod Samples
pub mod Identities
pub mod Endpoint
pub mod Passes
pub mod Harbor
pub mod Node
pub mod Keys
pub mod Startup
pub mod Released
