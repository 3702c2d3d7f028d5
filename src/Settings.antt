-- ===== src/Settings.antt =====
-- Settings: backend/core/settings_registry.py, which says what a setting is, and
-- backend/core/settings_service.py, which reads and writes their values.
pub mod Texts
pub mod Objects
pub mod Bounds
pub mod Types
pub mod Definition
pub mod Problems
pub mod Stripping
pub mod Parsing
pub mod Clamping
pub mod Coercion
pub mod Service
pub mod Resolve
pub mod Coherence
pub mod Effective
pub mod State
pub mod Write
pub mod Staleness
pub mod Written
pub mod WriteThenRead
pub mod Snapshot
pub mod Accepting
pub mod Robust
pub mod Formed
pub mod Reading
