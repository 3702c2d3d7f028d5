-- ===== src/Flags.antt =====
-- Feature flags (backend/core/flags.py).
pub mod Resolution
pub mod Cache
pub mod Answers
pub mod Setting
pub mod Coherence
pub mod Laws
pub mod KillSwitch
