-- ===== src/Data/TemplateTables.antt =====
-- The rows of message templates in backend/prisma/schema.prisma. The variables of a template stand in its
-- row, in the order of their positions; buttons, media, sample values and what the provider sets are
-- left out.
use bravi_ai.Prelude.{ℕ, Bool, String, Option, List}
use bravi_ai.Data.Enums.{MessageChannel}

pub data TemplateType : Type 0 where
  internal whatsapp : TemplateType

pub data VariableType : Type 0 where
  system custom : VariableType

pub data WaContentType : Type 0 where
  text media call_to_action quick_reply : WaContentType

pub data WaTemplateCategory : Type 0 where
  utility marketing authentication : WaTemplateCategory

pub data WaApprovalStatus : Type 0 where
  draft pending approved rejected paused disabled : WaApprovalStatus

pub record TemplateVariable : Type 0 where
  pub position : ℕ
  pub label : String
  pub source : String
  pub type : VariableType

pub record MessageTemplate : Type 0 where
  pub id : ℕ
  pub type : TemplateType
  pub name : String
  pub friendly_name : String
  pub channel : MessageChannel
  pub language : String
  pub body : String
  pub body_compiled : Option String
  pub subject : Option String
  pub content_type : WaContentType
  pub category : Option WaTemplateCategory
  pub approval_status : Option WaApprovalStatus
  pub is_active : Bool
  pub used_count : ℕ
  pub internal_category : Option String
  pub created_by : String
  pub variables : List TemplateVariable
