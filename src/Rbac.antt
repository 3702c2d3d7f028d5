-- ===== src/Rbac.antt =====
-- Roles, grants and assignments (backend/rbac/services.py).
pub mod Store
pub mod Roles
pub mod Assign
pub mod Guards
pub mod Administrators
pub mod Enforcement
