-- ===== src/Client.antt =====
-- The inbox of the React application in frontend/: what it keeps in the browser.
pub mod Maps
pub mod InboxStore
pub mod Sweeping
pub mod ConversationCache
pub mod Badges
pub mod ReadSync
pub mod TemplateParse
pub mod Preview
