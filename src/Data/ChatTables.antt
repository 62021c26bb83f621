-- ===== src/Data/ChatTables.antt =====
-- The rows of the team chat in backend/prisma/schema.prisma.
use bravi_ai.Prelude.{ℕ, Bool, String, Option, List}
use bravi_ai.Data.Tables.{File}

pub data ChatConversationType : Type 0 where
  direct group : ChatConversationType

pub data ChatParticipantRole : Type 0 where
  member admin : ChatParticipantRole

pub data ChatMessageType : Type 0 where
  text image document enquiry_card : ChatMessageType

pub record ChatConversation : Type 0 where
  pub id : ℕ
  pub type : ChatConversationType
  pub name : Option String
  pub key : Option String
  pub description : Option String
  pub archived_at : Option ℕ
  pub created_by : Option String
  pub last_message_at : Option ℕ

pub record ChatParticipant : Type 0 where
  pub conversation_id : ℕ
  pub user_id : String
  pub role : ChatParticipantRole
  pub last_read_at : Option ℕ
  pub last_delivered_at : Option ℕ
  pub is_active : Bool

pub record ChatMessage : Type 0 where
  pub id : ℕ
  pub conversation_id : ℕ
  pub sender_id : String
  pub type : ChatMessageType
  pub content : Option String
  pub parent_message_id : Option ℕ
  pub is_pinned : Bool
  pub is_deleted : Bool
  pub deleted_at : Option ℕ
  pub edited_at : Option ℕ
  pub is_starred : Bool
  pub deleted_for : List String
  pub created_at : ℕ

pub record ChatMessageReaction : Type 0 where
  pub chat_message_id : ℕ
  pub user_id : String
  pub emoji : String

pub record ChatAttachment : Type 0 where
  pub chat_message_id : ℕ
  pub file : File

-- The tables of the chat.
pub record Chat : Type 0 where
  pub conversations : List ChatConversation
  pub participants : List ChatParticipant
  pub messages : List ChatMessage
  pub reactions : List ChatMessageReaction
  pub attachments : List ChatAttachment
