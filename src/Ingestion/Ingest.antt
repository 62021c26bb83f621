-- ===== src/Ingestion/Ingest.antt =====
-- backend/src/modules/Ingestion/ingestion.service.ts
use bravi_ai.Prelude.{
  ℕ, ◌+◌, ◌-◌, ◌/◌, ◌*◌, Bool, true, false, not, ◌&&◌, String, Option, none, some, List, [], ◌∷◌,
  ◌==◌, leb, if◌then◌else◌, find_many, find_first, is_some, str_eq,
}
use bravi_ai.Data.{
  Enquiry, EnquiryStatus, EventType, InboundMessage, Message, MessageChannel, MessageDirection,
  MessageSource, DeliveryStatus, QualificationStatus, Metadata, Env, inbound_appended, same_status,
  same_channel,
}
use bravi_ai.Exec.{Exec, pure, reads, writes, throw_if, not_unique, transaction, emit, ◌>>=◌, ◌>>◌}
use bravi_ai.Store.{
  is_open, update_enquiry, next_contact_seq, create_message, add_timeline, open_for,
}
use bravi_ai.Contact.Resolve.{resolve}

-- IngestMessageDto of dto/incoming-message.dto.ts
pub record IngestMessage : Type 0 where
  pub channel : MessageChannel
  pub display_name : Option String
  pub external_id : Option String
  pub from : String
  pub to : Option String
  pub subject : Option String
  pub body : String

abbrev pub reopen_window_days : ℕ
reopen_window_days = 30

-- |date1 - date2| in whole days
unfoldable pub days_between : ℕ → ℕ → ℕ
days_between a b = ((a - b) + (b - a)) / (1000 * 60 * 60 * 24)

-- getStatusTransition, applied to the status: the listed statuses move, the others stay.
unfoldable pub status_on_reply : EnquiryStatus → EnquiryStatus
status_on_reply EnquiryStatus.stale = EnquiryStatus.open_
status_on_reply EnquiryStatus.awaiting_customer = EnquiryStatus.in_progress
status_on_reply EnquiryStatus.quotation_sent = EnquiryStatus.in_progress
status_on_reply EnquiryStatus.follow_up = EnquiryStatus.in_progress
status_on_reply s = s

abbrev pub inbound_message : Env → IngestMessage → QualificationStatus → ℕ → InboundMessage
inbound_message env dto status contact_id = record {
  id = env.row_id;
  channel = dto.channel;
  external_id = dto.external_id;
  from = dto.from;
  to = dto.to;
  subject = dto.subject;
  body = dto.body;
  status = status;
  contact_id = some contact_id;
}

-- @@unique([channel, externalId]) of InboundMessage: a null externalId repeats nothing.
abbrev has_external : String → Option String → Bool
has_external i none = false
has_external i (some j) = str_eq j i

abbrev pub is_delivery : MessageChannel → String → InboundMessage → Bool
is_delivery channel i m = same_channel m.channel channel && has_external i m.external_id

unfoldable pub is_redelivered : MessageChannel → Option String → List InboundMessage → Bool
is_redelivered channel none rows = false
is_redelivered channel (some i) rows = is_some (find_first (is_delivery channel i) rows)

-- inboundMessage.create, which the database refuses for a message that it has.
abbrev pub create_inbound : InboundMessage → Exec (Unit {0})
create_inbound m = do
  stored ← reads λ s. is_redelivered m.channel m.external_id s.inbox
  throw_if stored not_unique
  writes λ s. record s { inbox = m ∷ s.inbox }

abbrev pub conversation_message : Env → ℕ → ℕ → ℕ → IngestMessage → Message
conversation_message env enquiry_id contact_id seq dto = record {
  id = env.row_id;
  enquiry_id = enquiry_id;
  contact_id = contact_id;
  seq = seq;
  channel = dto.channel;
  direction = MessageDirection.inbound;
  from = dto.from;
  to = dto.to;
  subject = dto.subject;
  content = dto.body;
  external_id = none;
  delivery_status = DeliveryStatus.delivered;
  delivered_at = none;
  read_at = none;
  sent_by_user_id = none;
  draft_id = none;
  queue_job_id = none;
  fail_reason = none;
  retry_count = 0;
  last_retry_at = none;
  is_deleted = false;
  is_starred = false;
  source = MessageSource.human;
  created_at = env.now;
}

abbrev pub hear : ℕ → Enquiry → Enquiry
hear now e = record e {
  last_customer_reply_at = some now;
  last_activity_at = now;
  status = status_on_reply e.status;
}

-- PATH A: the message joins the open enquiry.
unfoldable pub append_to_existing : Env → IngestMessage → ℕ → Enquiry → Exec InboundMessage
append_to_existing env dto contact_id e = do
  let raw = inbound_message env dto QualificationStatus.real_enquiry contact_id
  create_inbound raw
  m ← transaction do
    seq ← next_contact_seq contact_id
    m ← create_message (conversation_message env e.id contact_id seq dto)
    row ← update_enquiry env.now e.id (hear env.now)
    pure m
  emit (inbound_appended contact_id e.id m)
  pure raw

abbrev pub reopen : ℕ → Enquiry → Enquiry
reopen now e = record e {
  status = EnquiryStatus.open_;
  last_activity_at = now;
  last_customer_reply_at = some now;
  version = e.version + 1;
}

-- PATH B: the closed enquiry is opened again.
unfoldable pub reopen_closed : Env → IngestMessage → ℕ → Enquiry → ℕ → Exec InboundMessage
reopen_closed env dto contact_id e days = do
  let raw = inbound_message env dto QualificationStatus.real_enquiry contact_id
  create_inbound raw
  m ← transaction do
    seq ← next_contact_seq contact_id
    m ← create_message (conversation_message env e.id contact_id seq dto)
    row ← update_enquiry env.now e.id (reopen env.now)
    add_timeline (
        record {
          enquiry_id = e.id;
          type = EventType.reopened;
          from_status = some EnquiryStatus.closed_lost;
          to_status = some EnquiryStatus.open_;
          created_by = "SYSTEM";
          metadata = Metadata.reopening days;
        }
        ∷ [])
    pure m
  emit (inbound_appended contact_id e.id m)
  pure raw

-- SLOW PATH: the message waits for qualification.
unfoldable pub queue_for_qualification : Env → IngestMessage → ℕ → Exec InboundMessage
queue_for_qualification env dto contact_id = do
  let raw = inbound_message env dto QualificationStatus.pending contact_id
  create_inbound raw
  writes λ s. record s { qualification_queue = raw.id ∷ s.qualification_queue }
  pure raw

-- orderBy: { updatedAt: 'desc' }, first row: the latest, the earlier in the table on a tie.
abbrev pub newer : Enquiry → Option Enquiry → Option Enquiry
newer e none = some e
newer e (some f) = if leb f.updated_at e.updated_at then some e else some f

unfoldable pub latest_updated : List Enquiry → Option Enquiry
latest_updated [] = none
latest_updated (e ∷ es) = newer e (latest_updated es)

abbrev pub closed_for : ℕ → Enquiry → Bool
closed_for contact_id e = e.contact_id == contact_id && not (is_open e.status)

abbrev pub may_reopen : ℕ → Enquiry → Bool
may_reopen now e =
    same_status e.status EnquiryStatus.closed_lost
    && leb (days_between e.updated_at now) reopen_window_days

abbrev pub after_closed : Env → IngestMessage → ℕ → Option Enquiry → Exec InboundMessage
after_closed env dto contact_id none = queue_for_qualification env dto contact_id
after_closed env dto contact_id (some e) =
    if may_reopen env.now e
    then reopen_closed env dto contact_id e (days_between e.updated_at env.now)
    else queue_for_qualification env dto contact_id

abbrev pub known : Env → IngestMessage → ℕ → Option Enquiry → Exec InboundMessage
known env dto contact_id (some e) = append_to_existing env dto contact_id e
known env dto contact_id none = do
  closed ← reads λ s. latest_updated (find_many (closed_for contact_id) s.enquiries)
  after_closed env dto contact_id closed

unfoldable pub route : Env → IngestMessage → ℕ → Bool → Exec InboundMessage
route env dto contact_id true = queue_for_qualification env dto contact_id
route env dto contact_id false = do
  active ← reads λ s. latest_updated (find_many (open_for contact_id) s.enquiries)
  known env dto contact_id active

unfoldable pub ingest : Env → IngestMessage → Exec InboundMessage
ingest env dto = do
  (contact_id, is_new) ← resolve env dto.channel dto.from dto.display_name
  route env dto contact_id is_new
