-- ===== src/Outbound.antt =====
-- backend/src/modules/outbound: queueing, sending, delivery, drafts and dead letters.
pub mod Queue
pub mod Delivery
pub mod Processor
pub mod Draft
pub mod Send
pub mod DeadLetters
pub mod Ranks
pub mod Attempts
pub mod Idempotence
pub mod Ownership
pub mod Cleanup
pub mod Retry
