-- ===== src/Contact.antt =====
-- backend/src/modules/contact
pub mod Resolve
pub mod Edit
pub mod Channels
pub mod Delete
pub mod Owners
pub mod Calls
pub mod Writes
pub mod Marked
pub mod Unique
pub mod Deletion
pub mod Primary
