-- ===== src/Witnesses.antt =====
-- Every theorem with hypotheses, applied at concrete data where they hold.
pub mod OutboxData
pub mod OutboxSystem
pub mod OutboxResults
pub mod OutboxOwing
pub mod FindingKinds
pub mod Backoff
pub mod Sessions
pub mod Roles
pub mod Holding
pub mod Attempts
pub mod SettingsData
pub mod SettingsResults
pub mod SettingsWrites
pub mod Reconciling
pub mod Switches
pub mod Factors
