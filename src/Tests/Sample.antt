-- ===== src/Tests/Sample.antt =====
-- A small world: one contact with one enquiry in progress, a message that waits to be sent, a draft
-- and two permissions.
use bravi_ai.Prelude.{some, none, ◌∷◌, [], false, true}
use bravi_ai.Data.{
  World, Env, Contact, User, Enquiry, Message, Draft, MessageChannel, EnquiryType, EnquiryStatus,
  MessageDirection, DeliveryStatus, DraftStatus, MessageSource,
}

abbrev pub env : Env
env = record { now = 1000; row_id = 50; job_id = 7 }

abbrev pub later : Env
later = record { now = 2000; row_id = 60; job_id = 8 }

abbrev pub ana : Contact
ana = record {
  id = 1;
  display_name = "Ana";
  organization = none;
  notes = none;
  channels =
      record { id = 5; channel = MessageChannel.email; identifier = "ana@x.io"; is_primary = true }
      ∷ [];
  last_message_seq = 4;
  last_read_seq = 0;
  last_seen_at = 0;
}

abbrev pub staff : User
staff = record { id = "u1"; display_name = ""; user_name = "sam"; is_active = true }

abbrev pub enquiry : Enquiry
enquiry = record {
  id = 10;
  type = EnquiryType.real;
  contact_id = 1;
  status = EnquiryStatus.in_progress;
  tags = "vip" ∷ [];
  lost_reason = none;
  intent = none;
  urgency = none;
  priority = none;
  version = 3;
  last_customer_reply_at = none;
  first_response_at = some 5;
  last_activity_at = 5;
  updated_at = 5;
  assigned_to_id = none;
}

abbrev pub waiting : Message
waiting = record {
  id = 20;
  enquiry_id = 10;
  contact_id = 1;
  seq = 4;
  channel = MessageChannel.email;
  direction = MessageDirection.outbound;
  from = "u1";
  to = some "ana@x.io";
  subject = none;
  content = "Hello";
  external_id = none;
  delivery_status = DeliveryStatus.pending;
  delivered_at = none;
  read_at = none;
  sent_by_user_id = some "u1";
  draft_id = none;
  queue_job_id = none;
  fail_reason = none;
  retry_count = 0;
  last_retry_at = none;
  is_deleted = false;
  is_starred = false;
  source = MessageSource.human;
  created_at = 5;
}

abbrev pub draft : Draft
draft = record {
  id = 30;
  enquiry_id = 10;
  channel = MessageChannel.email;
  subject = none;
  body = some "Offer";
  status = DraftStatus.active;
  expires_at = 5000;
  created_by = "u1";
}

abbrev pub world : World
world = record {
  contacts = ana ∷ [];
  users = staff ∷ [];
  enquiries = enquiry ∷ [];
  messages = waiting ∷ [];
  timeline = [];
  notes = [];
  inbox = [];
  drafts = draft ∷ [];
  draft_attachments = [];
  message_attachments = [];
  dead_letters = [];
  outbound_queue = [];
  qualification_results = [];
  qualification_queue = [];
  storage = [];
  permissions = record { id = 1; action = "read"; subject = "enquiry" } ∷ [];
  role_permissions = [];
  idempotency_keys = [];
  connections = [];
  chat = record {
    conversations = [];
    participants = [];
    messages = [];
    reactions = [];
    attachments = [];
  };
  templates = [];
  events = [];
}
