-- ===== src/Messaging.antt =====
-- backend/src/modules/messaging, and the read marks of backend/src/websocket/app.gateway.ts
pub mod Summary
pub mod Stars
pub mod ReadMark
pub mod Conversations
pub mod Thread
pub mod Counts
pub mod Reading
pub mod Pages
