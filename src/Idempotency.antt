-- ===== src/Idempotency.antt =====
-- backend/src/common/Idempotency and backend/src/common/interceptors: requests handled once.
pub mod Keys
pub mod Once
