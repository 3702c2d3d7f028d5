-- ===== src/Jobs.antt =====
-- Background jobs (backend/core/jobs).
pub mod Retry
pub mod Reconciler
