-- ===== src/Outbox.antt =====
-- The transactional outbox (backend/core/outbox).
pub mod Outcome
pub mod Message
pub mod Enqueue
pub mod Claim
pub mod Deliver
pub mod Settle
pub mod Recovery
pub mod Resolve
pub mod Drain
pub mod Invariant
pub mod Sound
pub mod Moves
pub mod Preserve
pub mod Steps
pub mod Exclusive
pub mod Semantics
