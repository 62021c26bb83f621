-- ===== src/Enquiry/Qualified.antt =====
-- handleQualified and toEnquiryIntent of backend/src/modules/enquiry/enquiry.service.ts
use bravi_ai.Prelude.{ℕ, false, String, Option, none, some, List, [], ◌∷◌, str_eq, if◌then◌else◌}
use bravi_ai.Data.{
  Enquiry, EnquiryStatus, EnquiryType, EnquiryIntent, EventType, InboundMessage, Message,
  MessageDirection, MessageSource, DeliveryStatus, Metadata, Env, inbound_appended, enquiry_created,
}
use bravi_ai.Data.EnquiryIntent.{
  product_inquiry, pricing_request, bulk_order, shipping_inquiry, general_info, complaint,
  appointment, document_submit, return_refund, partnership, unknown,
}
use bravi_ai.Exec.{Exec, pure, transaction, emit, ◌>>=◌, ◌>>◌}
use bravi_ai.Store.{
  find_inbound, find_open_enquiry, next_contact_seq, create_enquiry, create_message, add_timeline,
  truthy,
}

abbrev pub intents : List (String × EnquiryIntent)
intents =
    ("PRODUCT_INQUIRY", product_inquiry)
    ∷ ("PRICING_REQUEST", pricing_request)
    ∷ ("BULK_ORDER", bulk_order)
    ∷ ("SHIPPING_INQUIRY", shipping_inquiry)
    ∷ ("GENERAL_INFO", general_info)
    ∷ ("COMPLAINT", complaint)
    ∷ ("APPOINTMENT", appointment)
    ∷ ("DOCUMENT_SUBMIT", document_submit)
    ∷ ("RETURN_REFUND", return_refund)
    ∷ ("PARTNERSHIP", partnership)
    ∷ ("UNKNOWN", unknown)
    ∷ []

-- validIntents[intent] || UNKNOWN
pub intent_named : List (String × EnquiryIntent) → String → EnquiryIntent
intent_named [] t = unknown
intent_named ((name, i) ∷ rest) t = if str_eq name t then i else intent_named rest t

intent_of : Option String → Option EnquiryIntent
intent_of none = none
intent_of (some t) = some (intent_named intents t)

unfoldable pub to_enquiry_intent : Option String → Option EnquiryIntent
unfolding intent_of intent_named
to_enquiry_intent intent = intent_of (truthy intent)

-- The payload of 'enquiry.qualified'; a missing contact is an empty identifier.
pub record Qualified : Type 0 where
  pub inbound_message_id : ℕ
  pub contact_id : Option ℕ
  pub intent : Option String
  pub urgency : Option ℕ
  pub priority : Option ℕ

abbrev pub inbound_row : Env → ℕ → ℕ → ℕ → InboundMessage → Message
inbound_row env enquiry_id contact_id seq i = record {
  id = env.row_id;
  enquiry_id = enquiry_id;
  contact_id = contact_id;
  seq = seq;
  channel = i.channel;
  direction = MessageDirection.inbound;
  from = i.from;
  to = none;
  subject = none;
  content = i.body;
  external_id = none;
  delivery_status = DeliveryStatus.delivered;
  delivered_at = none;
  read_at = none;
  sent_by_user_id = none;
  draft_id = none;
  queue_job_id = none;
  fail_reason = none;
  retry_count = 0;
  last_retry_at = none;
  is_deleted = false;
  is_starred = false;
  source = MessageSource.human;
  created_at = env.now;
}

-- Race: another message already created the enquiry, so just append. The event carries the
-- message as the chat shows it, with the recipient of the inbound message.
unfoldable pub append_to : Env → ℕ → InboundMessage → Enquiry → Exec (Unit {0})
append_to env contact_id i e = do
  m ←
      transaction
        do seq ← next_contact_seq contact_id; create_message (inbound_row env e.id contact_id seq i)
  emit (inbound_appended contact_id e.id (record m { to = i.to }))

abbrev pub qualified_enquiry : Env → ℕ → Qualified → Enquiry
qualified_enquiry env contact_id q = record {
  id = env.row_id;
  type = EnquiryType.real;
  contact_id = contact_id;
  status = EnquiryStatus.new;
  tags = [];
  lost_reason = none;
  intent = to_enquiry_intent q.intent;
  urgency = q.urgency;
  priority = q.priority;
  version = 1;
  last_customer_reply_at = none;
  first_response_at = none;
  last_activity_at = env.now;
  updated_at = env.now;
  assigned_to_id = none;
}

unfoldable pub create_qualified : Env → ℕ → Qualified → InboundMessage → Exec (Unit {0})
create_qualified env contact_id q i = do
  e ← transaction do
    seq ← next_contact_seq contact_id
    create_enquiry (qualified_enquiry env contact_id q)
    m ← create_message (inbound_row env env.row_id contact_id seq i)
    add_timeline (
        record {
          enquiry_id = env.row_id;
          type = EventType.created;
          from_status = none;
          to_status = some EnquiryStatus.new;
          created_by = "SYSTEM";
          metadata = Metadata.qualification q.inbound_message_id q.intent;
        }
        ∷ [])
    pure (qualified_enquiry env contact_id q)
  emit (enquiry_created contact_id e.id)

abbrev pub append_or_create :
    Env → ℕ → Qualified → InboundMessage → Option Enquiry → Exec (Unit {0})
append_or_create env contact_id q i none = create_qualified env contact_id q i
append_or_create env contact_id q i (some e) = append_to env contact_id i e

abbrev place : Env → ℕ → Qualified → Option InboundMessage → Exec (Unit {0})
place env contact_id q none = pure tt
place env contact_id q (some i) = do
  active ← find_open_enquiry contact_id
  append_or_create env contact_id q i active

abbrev place_for : Env → Qualified → Option ℕ → Exec (Unit {0})
place_for env q none = pure tt
place_for env q (some contact_id) = do
  i ← find_inbound q.inbound_message_id
  place env contact_id q i

unfoldable pub handle_qualified : Env → Qualified → Exec (Unit {0})
unfolding append_to create_qualified
handle_qualified env q = place_for env q q.contact_id
