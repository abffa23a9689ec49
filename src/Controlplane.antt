-- ===== src/Controlplane.antt =====
-- The controller (bridge/controlplane): the reconciler and the janitor.
pub mod SettingChecks
pub mod Settings
pub mod Rotation
pub mod Effect
pub mod Secrets
pub mod Deletion
pub mod Janitor
pub mod Release
pub mod Suspension
pub mod Storage
pub mod Provision
pub mod Outcomes
pub mod Convergence
