-- ===== src/Channels.antt =====
-- backend/src/modules/channels, and what of outbound and webhooks depends on it
pub mod Service
pub mod Webhook
pub mod Router
pub mod Switched
pub mod Rotation
