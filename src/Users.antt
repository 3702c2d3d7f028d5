-- ===== src/Users.antt =====
-- Sign-in sessions and lockout (backend/users/tokens.py, models/session.py, services/lockout.py).
pub mod Session
pub mod Keys
pub mod Revoke
pub mod Rotate
pub mod Issue
pub mod Families
pub mod Chains
pub mod Grace
pub mod Reuse
pub mod Staleness
pub mod Signatures
pub mod Lockout
pub mod LockoutLaws
pub mod Mfa
pub mod MfaReplay
pub mod MfaSetup
pub mod MfaDisabled
pub mod MfaEnrolled
