-- ===== src/Data/Tables.antt =====
-- The rows of the tables of backend/prisma/schema.prisma. Row identifiers and times are numbers (an
-- identifier is only ever compared, a time is in milliseconds); user identifiers and texts are texts.
use bravi_ai.Prelude.{ℕ, Bool, String, Option, List}
use bravi_ai.Data.Enums.{
  EnquiryStatus, EnquiryType, MessageChannel, MessageDirection, DeliveryStatus, MessageSource,
  QualificationStatus, DraftStatus, AttachmentKind, EnquiryIntent, EventType,
}

pub record ContactChannel : Type 0 where
  pub id : ℕ
  pub channel : MessageChannel
  pub identifier : String
  pub is_primary : Bool

pub record Contact : Type 0 where
  pub id : ℕ
  pub display_name : String
  pub organization : Option String
  pub notes : Option String
  pub channels : List ContactChannel
  pub last_message_seq : ℕ
  pub last_read_seq : ℕ
  pub last_seen_at : ℕ

pub record User : Type 0 where
  pub id : String
  pub display_name : String
  pub user_name : String
  pub is_active : Bool

pub record Enquiry : Type 0 where
  pub id : ℕ
  pub type : EnquiryType
  pub contact_id : ℕ
  pub status : EnquiryStatus
  pub tags : List String
  pub lost_reason : Option String
  pub intent : Option EnquiryIntent
  pub urgency : Option ℕ
  pub priority : Option ℕ
  pub version : ℕ
  pub last_customer_reply_at : Option ℕ
  pub first_response_at : Option ℕ
  pub last_activity_at : ℕ
  pub updated_at : ℕ
  pub assigned_to_id : Option String

pub record Message : Type 0 where
  pub id : ℕ
  pub enquiry_id : ℕ
  pub contact_id : ℕ
  pub seq : ℕ
  pub channel : MessageChannel
  pub direction : MessageDirection
  pub from : String
  pub to : Option String
  pub subject : Option String
  pub content : String
  pub external_id : Option String
  pub delivery_status : DeliveryStatus
  pub delivered_at : Option ℕ
  pub read_at : Option ℕ
  pub sent_by_user_id : Option String
  pub draft_id : Option ℕ
  pub queue_job_id : Option ℕ
  pub fail_reason : Option String
  pub retry_count : ℕ
  pub last_retry_at : Option ℕ
  pub is_deleted : Bool
  pub is_starred : Bool
  pub source : MessageSource
  pub created_at : ℕ

-- The JSON objects that the services store in a timeline entry, one constructor for each shape.
pub data Metadata : Type 0 where
  empty : Metadata
  source : String → Metadata
  lost_reason : String → Metadata
  assignee : String → String → Option String → Metadata
  tag : String → Metadata
  message : MessageChannel → ℕ → Metadata
  ai_message : MessageChannel → ℕ → Metadata
  reason : String → Metadata
  note : ℕ → Metadata
  qualification : ℕ → Option String → Metadata
  reopening : ℕ → Metadata

pub record TimelineEntry : Type 0 where
  pub enquiry_id : ℕ
  pub type : EventType
  pub from_status : Option EnquiryStatus
  pub to_status : Option EnquiryStatus
  pub created_by : String
  pub metadata : Metadata

pub record Note : Type 0 where
  pub id : ℕ
  pub enquiry_id : ℕ
  pub content : String
  pub created_by : String

pub record InboundMessage : Type 0 where
  pub id : ℕ
  pub channel : MessageChannel
  pub external_id : Option String
  pub from : String
  pub to : Option String
  pub subject : Option String
  pub body : String
  pub status : QualificationStatus
  pub contact_id : Option ℕ

-- The result of a qualification: of what the AI service answers, the columns that are read again.
pub record QualificationResult : Type 0 where
  pub inbound_message_id : ℕ
  pub final_status : QualificationStatus
  pub rule_reason : Option String
  pub sent_to_ai : Bool
  pub ai_confidence : Option ℕ
  pub ai_reason : Option String
  pub intent : Option EnquiryIntent
  pub urgency : Option ℕ
  pub priority : Option ℕ

pub record Draft : Type 0 where
  pub id : ℕ
  pub enquiry_id : ℕ
  pub channel : MessageChannel
  pub subject : Option String
  pub body : Option String
  pub status : DraftStatus
  pub expires_at : ℕ
  pub created_by : String

-- What a draft's attachment and a message's attachment have in common.
pub record File : Type 0 where
  pub kind : AttachmentKind
  pub file_name : String
  pub mime_type : String
  pub file_size : ℕ
  pub storage_key : String
  pub cdn_url : Option String

pub record DraftAttachment : Type 0 where
  pub id : ℕ
  pub draft_id : ℕ
  pub file : File
  pub created_at : ℕ

pub record MessageAttachment : Type 0 where
  pub message_id : ℕ
  pub file : File

pub record DeadLetter : Type 0 where
  pub id : ℕ
  pub message_id : ℕ
  pub job_name : MessageChannel
  pub last_error : String
  pub attempt_count : ℕ
  pub resolved_at : Option ℕ
  pub resolved_by : Option String

pub record Permission : Type 0 where
  pub id : ℕ
  pub action : String
  pub subject : String

-- The role is the text of its enum member; the conditions pair the fields of a JSON object with
-- their values.
pub record RolePermission : Type 0 where
  pub id : ℕ
  pub role : String
  pub permission_id : ℕ
  pub conditions : Option (List (String × String))

pub record IdempotencyKey : Type 0 where
  pub key : String
  pub request_hash : String
  pub is_completed : Bool
  pub created_at : ℕ
