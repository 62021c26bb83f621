-- ===== src/Inbox.antt =====
-- The enquiry and ingestion services as one system over the shared world.
pub mod Command
pub mod History
pub mod Concurrency
pub mod Sequence
pub mod Numbers
pub mod OneOpen
