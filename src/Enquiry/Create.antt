-- ===== src/Enquiry/Create.antt =====
-- create of backend/src/modules/enquiry/enquiry.service.ts
use bravi_ai.Prelude.{ℕ, Bool, String, Option, none, some, List, [], ◌∷◌, or_else, is_some}
use bravi_ai.Data.{
  Enquiry, EnquiryStatus, EnquiryType, EventType, Message, MessageChannel, MessageDirection,
  MessageSource, DeliveryStatus, Metadata, Env,
}
use bravi_ai.Exec.{Exec, pure, found, throw_if, transaction, ◌>>=◌, ◌>>◌, bad_request, conflict}
use bravi_ai.Store.{
  find_contact, find_open_enquiry, next_contact_seq, create_enquiry, create_message, add_timeline,
  truthy, or_text,
}

-- CreateEnquiryDto of dto/create-enquiry.dto.ts
pub record CreateEnquiry : Type 0 where
  pub contact_id : ℕ
  pub type : Option EnquiryType
  pub tags : Option (List String)
  pub initial_message : Option String

abbrev pub new_enquiry : Env → CreateEnquiry → Enquiry
new_enquiry env dto = record {
  id = env.row_id;
  type = or_else dto.type EnquiryType.real;
  contact_id = dto.contact_id;
  status = EnquiryStatus.new;
  tags = or_else dto.tags [];
  lost_reason = none;
  intent = none;
  urgency = none;
  priority = none;
  version = 1;
  last_customer_reply_at = none;
  first_response_at = none;
  last_activity_at = env.now;
  updated_at = env.now;
  assigned_to_id = none;
}

abbrev pub initial_message : Env → CreateEnquiry → Option String → ℕ → String → Message
initial_message env dto user_id seq text = record {
  id = env.row_id;
  enquiry_id = env.row_id;
  contact_id = dto.contact_id;
  seq = seq;
  channel = MessageChannel.email;
  direction = MessageDirection.outbound;
  from = or_text user_id "SYSTEM";
  to = none;
  subject = none;
  content = text;
  external_id = none;
  delivery_status = DeliveryStatus.pending;
  delivered_at = none;
  read_at = none;
  sent_by_user_id = user_id;
  draft_id = none;
  queue_job_id = none;
  fail_reason = none;
  retry_count = 0;
  last_retry_at = none;
  is_deleted = Bool.false;
  is_starred = Bool.false;
  source = MessageSource.human;
  created_at = env.now;
}

-- The nested `messages: { create }`, with its sequence number, when a message is given.
create_initial : Env → CreateEnquiry → Option String → Option String → Exec (Unit {0})
create_initial env dto user_id none = pure tt
create_initial env dto user_id (some text) = do
  seq ← next_contact_seq dto.contact_id
  m ← create_message (initial_message env dto user_id seq text)
  pure tt

unfoldable pub create : Env → CreateEnquiry → Option String → Exec Enquiry
unfolding create_initial
create env dto user_id = do
  contact ← find_contact dto.contact_id
  c ← found contact bad_request
  existing ← find_open_enquiry dto.contact_id
  throw_if (is_some existing) conflict
  transaction do
    create_initial env dto user_id (truthy dto.initial_message)
    create_enquiry (new_enquiry env dto)
    add_timeline (
        record {
          enquiry_id = env.row_id;
          type = EventType.created;
          from_status = none;
          to_status = some EnquiryStatus.new;
          created_by = or_text user_id "SYSTEM";
          metadata = Metadata.source "MANUAL";
        }
        ∷ [])
    pure (new_enquiry env dto)
