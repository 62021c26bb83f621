-- ===== src/Tests.antt =====
-- Small inputs, runs of the model on them, and the theorems at concrete inputs.
mod Sample
mod Inbox
mod Outbound
mod Permission
mod Idempotency
mod Chat
mod Contact
mod Template
mod Automation
mod Qualification
mod Messaging
mod Client
mod Channels
