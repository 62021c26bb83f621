-- ===== src/Enquiry.antt =====
-- backend/src/modules/enquiry: the enquiry lifecycle.
pub mod Status
pub mod Create
pub mod Manage
pub mod Reply
pub mod Qualified
pub mod Notes
pub mod Lifecycle
pub mod Changes
pub mod Unique
pub mod OpenCount
pub mod OneOpen
