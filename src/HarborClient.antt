-- ===== src/HarborClient.antt =====
-- The client of Harbor's robot API (bridge/controlplane/harbor/client.go).
pub mod Permissions
pub mod Robots
pub mod Listing
pub mod Operations
