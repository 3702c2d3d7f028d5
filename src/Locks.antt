-- ===== src/Locks.antt =====
-- Locks with a time to live (backend/core/locks.py).
pub mod Store
pub mod Exclusion
