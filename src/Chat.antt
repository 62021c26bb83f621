-- ===== src/Chat.antt =====
-- backend/src/modules/chat/chat.service.ts: the team chat, its rooms, members and messages.
pub mod Members
pub mod Receipts
pub mod Messages
pub mod History
pub mod Channels
pub mod Reactions
pub mod Access
pub mod Watermarks
pub mod Unread
pub mod Toggle
pub mod Direct
pub mod Paging
