-- ===== src/Data/Shared.antt =====
-- The state that the services share: the database, the two job queues, the
-- keys of the stored files and the emitted events. The
-- newest row, job or event stands first in its list.
use bravi_ai.Prelude.{ℕ, Bool, String, Option, List}
use bravi_ai.Data.ChatTables.{Chat}
use bravi_ai.Data.ChannelTables.{ChannelConnection}
use bravi_ai.Data.TemplateTables.{MessageTemplate}
use bravi_ai.Data.Enums.{MessageChannel, DeliveryStatus}
use bravi_ai.Data.Tables.{
  Contact, User, QualificationResult, Enquiry, Message, TimelineEntry, Note, InboundMessage, Draft,
  File, DraftAttachment, MessageAttachment, DeadLetter, Permission, RolePermission, IdempotencyKey,
}

-- EnqueuePayload of outbound.service.ts; `to` is a text that may be empty.
pub record EnqueuePayload : Type 0 where
  pub message_id : ℕ
  pub enquiry_id : ℕ
  pub channel : MessageChannel
  pub to : String
  pub content : String
  pub subject : Option String
  pub from_user_id : Option String

-- EmailJobPayload and WhatsAppJobPayload of outbound.processor.ts; the job's name is the channel.
pub record Job : Type 0 where
  pub id : ℕ
  pub name : MessageChannel
  pub message_id : ℕ
  pub enquiry_id : ℕ
  pub to : String
  pub subject : Option String
  pub body : String
  pub from_user_id : String
  pub attachments : List File

pub data Event : Type 0 where
  message_outbound : EnqueuePayload → Event
  inbound_appended : (contact_id enquiry_id : ℕ) → Message → Event
  enquiry_created : (contact_id enquiry_id : ℕ) → Event
  outbound_sent : (message_id enquiry_id at : ℕ) → Event
  outbound_failed : (message_id enquiry_id : ℕ) → String → ℕ → Event
  delivery_updated : (message_id : ℕ) → Option ℕ → DeliveryStatus → Option String → Event
  outbound_broadcast : (contact_id enquiry_id message_id : ℕ) → Event
  receipts_updated : (conversation_id : ℕ) → (delivered_up_to read_up_to : Option ℕ) → Event
  chat_created : (conversation_id message_id : ℕ) → Event
  chat_pinned : (conversation_id message_id : ℕ) → Bool → Event
  chat_starred : (conversation_id message_id : ℕ) → Bool → Event
  chat_edited : (conversation_id message_id : ℕ) → String → ℕ → Event
  chat_deleted : (conversation_id message_id : ℕ) → Event
  chat_reacted : (conversation_id message_id : ℕ) → (user_id emoji : String) → Bool → Event
  conversation_updated : (conversation_id : ℕ) → List String → Event
  enquiry_qualified :
      (inbound_message_id : ℕ)
      → (contact_id : Option ℕ) → (intent : String) → (urgency priority : ℕ) → Event
  star_toggled : (contact_id message_id : ℕ) → Bool → Event
  read_updated : (contact_id last_read_seq : ℕ) → Event
  unread_summary : (email whatsapp sms : ℕ) → Event
  membership_removed : (conversation_id : ℕ) → String → Event

pub record World : Type 0 where
  pub contacts : List Contact
  pub users : List User
  pub enquiries : List Enquiry
  pub messages : List Message
  pub timeline : List TimelineEntry
  pub notes : List Note
  pub inbox : List InboundMessage
  pub drafts : List Draft
  pub draft_attachments : List DraftAttachment
  pub message_attachments : List MessageAttachment
  pub dead_letters : List DeadLetter
  pub outbound_queue : List Job
  pub qualification_results : List QualificationResult
  pub qualification_queue : List ℕ
  pub storage : List String
  pub permissions : List Permission
  pub role_permissions : List RolePermission
  pub idempotency_keys : List IdempotencyKey
  pub connections : List ChannelConnection
  pub chat : Chat
  pub templates : List MessageTemplate
  pub events : List Event

-- What the runtime supplies to a call: the time, and the identifiers that the database and the
-- queue give to the row and the job that the call creates.
pub record Env : Type 0 where
  pub now : ℕ
  pub row_id : ℕ
  pub job_id : ℕ
