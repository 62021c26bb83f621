-- ===== src/Data.antt =====
-- The data model: backend/prisma/schema.prisma, the tables and columns that the services read or
-- write, and what they send to one another (queue jobs and emitted events).
mod Enums
mod Tables
mod ChatTables
mod TemplateTables
mod ChannelTables
mod Shared
pub use Enums.*
pub use Tables.*
pub use ChatTables.*
pub use TemplateTables.*
pub use ChannelTables.*
pub use Shared.*
