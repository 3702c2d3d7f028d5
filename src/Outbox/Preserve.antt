-- ===== src/Outbox/Preserve.antt =====
-- Each transaction of the outbox, against what Sound asks of the system.
pub mod Enqueue
pub mod Stamp
pub mod Settle
pub mod Park
pub mod Decide
