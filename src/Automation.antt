-- ===== src/Automation.antt =====
-- backend/src/modules/automation
pub mod Reply
pub mod Once
