-- ===== src/Qualification.antt =====
-- backend/src/modules/qualification and its queue, and the way of a message to it and on
pub mod Qualify
pub mod Writes
pub mod Settled
pub mod Arrival
pub mod Worker
pub mod Journey
