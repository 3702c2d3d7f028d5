-- ===== src/Outbox/Semantics.antt =====
-- The outbox's operations, one by one.
pub mod Owing
pub mod Delivering
pub mod Settling
pub mod Sweeping
pub mod Retrying
pub mod Draining
pub mod AtMostOnce
