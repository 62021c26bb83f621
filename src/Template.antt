-- ===== src/Template.antt =====
-- backend/src/modules/template
pub mod Engine
pub mod Tokens
pub mod Scanning
pub mod Compiled
pub mod Variables
pub mod Fields
pub mod Service
pub mod Rows
