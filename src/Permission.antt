-- ===== src/Permission.antt =====
-- backend/src/modules/permission
pub mod Service
pub mod Roles
pub mod Unique
