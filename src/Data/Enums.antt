-- ===== src/Data/Enums.antt =====
-- The enums of backend/prisma/schema.prisma, with the tests that the services make of them.
use bravi_ai.Prelude.{ℕ, ◌≡◌, ◌↔◌, Bool, true, arith, ◌==◌}

pub data EnquiryStatus : Type 0 where
  new open_ in_progress awaiting_customer quotation_sent follow_up : EnquiryStatus
  stale converted closed_lost : EnquiryStatus

pub data EnquiryType : Type 0 where
  real review spam : EnquiryType

pub data MessageChannel : Type 0 where
  email whatsapp sms : MessageChannel

pub data MessageDirection : Type 0 where
  inbound outbound : MessageDirection

pub data DeliveryStatus : Type 0 where
  pending sent delivered read failed : DeliveryStatus

pub data MessageSource : Type 0 where
  human ai_assisted automation voice : MessageSource

pub data QualificationStatus : Type 0 where
  pending processing real_enquiry spam needs_review : QualificationStatus
  reviewed_approved reviewed_rejected : QualificationStatus

pub data DraftStatus : Type 0 where
  active expired cleared : DraftStatus

pub data AttachmentKind : Type 0 where
  image video document audio voice_note : AttachmentKind

pub data EnquiryIntent : Type 0 where
  product_inquiry pricing_request bulk_order shipping_inquiry general_info : EnquiryIntent
  complaint appointment document_submit return_refund partnership unknown : EnquiryIntent

pub data EventType : Type 0 where
  created status_changed assigned reassigned tag_added tag_removed : EventType
  message_sent note_added reopened : EventType

-- `===` on an enum compares the members by their position.
abbrev pub status_index : EnquiryStatus → ℕ
status_index EnquiryStatus.new = 0
status_index EnquiryStatus.open_ = 1
status_index EnquiryStatus.in_progress = 2
status_index EnquiryStatus.awaiting_customer = 3
status_index EnquiryStatus.quotation_sent = 4
status_index EnquiryStatus.follow_up = 5
status_index EnquiryStatus.stale = 6
status_index EnquiryStatus.converted = 7
status_index EnquiryStatus.closed_lost = 8

abbrev pub same_status : EnquiryStatus → EnquiryStatus → Bool
same_status a b = status_index a == status_index b

abbrev pub channel_index : MessageChannel → ℕ
channel_index MessageChannel.email = 0
channel_index MessageChannel.whatsapp = 1
channel_index MessageChannel.sms = 2

abbrev pub same_channel : MessageChannel → MessageChannel → Bool
same_channel a b = channel_index a == channel_index b

abbrev pub delivery_index : DeliveryStatus → ℕ
delivery_index DeliveryStatus.pending = 0
delivery_index DeliveryStatus.sent = 1
delivery_index DeliveryStatus.delivered = 2
delivery_index DeliveryStatus.read = 3
delivery_index DeliveryStatus.failed = 4

abbrev pub same_delivery : DeliveryStatus → DeliveryStatus → Bool
same_delivery a b = delivery_index a == delivery_index b

abbrev pub draft_index : DraftStatus → ℕ
draft_index DraftStatus.active = 0
draft_index DraftStatus.expired = 1
draft_index DraftStatus.cleared = 2

abbrev pub same_draft : DraftStatus → DraftStatus → Bool
same_draft a b = draft_index a == draft_index b

-- `same_status` decides equality.
pub same_status_iff : (a b : EnquiryStatus) → (same_status a b ≡ true) ↔ (a ≡ b)
same_status_iff a b = ground arith
