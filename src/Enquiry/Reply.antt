-- ===== src/Enquiry/Reply.antt =====
-- sendMessage, addOutboundMessage, addAiReply and maybeTransitionOnOutbound of
-- backend/src/modules/enquiry/enquiry.service.ts
use bravi_ai.Prelude.{
  ℕ, ◌+◌, Bool, false, not, ◌||◌, String, Option, none, some, List, [], ◌∷◌, ◌==◌, if◌then◌else◌,
  or_else, leb, find_many,
}
use bravi_ai.Data.{
  Enquiry, EnquiryStatus, EventType, Message, MessageChannel, MessageDirection, MessageSource,
  DeliveryStatus, Metadata, ContactChannel, Env, Event, message_outbound, same_status,
}
use bravi_ai.Exec.{Exec, pure, reads, found, transaction, emit, ◌>>=◌, ◌>>◌, bad_request, not_found}
use bravi_ai.Store.{
  find_enquiry, find_contact, update_enquiry, create_message, add_timeline, next_contact_seq,
  truthy, find_channel, channels_of,
}
use bravi_ai.Enquiry.Status.{transitions, includes}

-- What an outbound message says; the columns that no caller sets have the defaults of the schema.
pub record Outgoing : Type 0 where
  pub channel : MessageChannel
  pub to : String
  pub subject : Option String
  pub body : String
  pub from : String
  pub sent_by : Option String
  pub draft_id : Option ℕ
  pub source : MessageSource

abbrev pub outbound_row : Env → ℕ → ℕ → ℕ → Outgoing → Message
outbound_row env enquiry_id contact_id seq o = record {
  id = env.row_id;
  enquiry_id = enquiry_id;
  contact_id = contact_id;
  seq = seq;
  channel = o.channel;
  direction = MessageDirection.outbound;
  from = o.from;
  to = some o.to;
  subject = o.subject;
  content = o.body;
  external_id = none;
  delivery_status = DeliveryStatus.pending;
  delivered_at = none;
  read_at = none;
  sent_by_user_id = o.sent_by;
  draft_id = o.draft_id;
  queue_job_id = none;
  fail_reason = none;
  retry_count = 0;
  last_retry_at = none;
  is_deleted = false;
  is_starred = false;
  source = o.source;
  created_at = env.now;
}

-- The message's queue event, with the fields that the caller passes on.
abbrev pub outbound_event : ℕ → Outgoing → Option String → Option String → Message → Event
outbound_event enquiry_id o subject from_user m = message_outbound (record {
  message_id = m.id;
  enquiry_id = enquiry_id;
  channel = o.channel;
  to = o.to;
  content = o.body;
  subject = subject;
  from_user_id = from_user;
})

-- firstResponseAt is set once.
abbrev pub respond : ℕ → (EnquiryStatus → EnquiryStatus) → Enquiry → Enquiry
respond now move e = record e {
  last_activity_at = now;
  first_response_at = some (or_else e.first_response_at now);
  status = move e.status;
}

-- The `$transaction` of the three senders: sequence number, message, enquiry, timeline.
unfoldable pub store_outbound :
    Env
    → ℕ
    → Enquiry
    → Outgoing
    → (EnquiryStatus → EnquiryStatus)
    → String
    → Metadata
    → Exec Message
store_outbound env id e o move created_by metadata = transaction do
  seq ← next_contact_seq e.contact_id
  m ← create_message (outbound_row env id e.contact_id seq o)
  row ← update_enquiry env.now id (respond env.now move)
  add_timeline (
      record {
        enquiry_id = id;
        type = EventType.message_sent;
        from_status = none;
        to_status = none;
        created_by = created_by;
        metadata = metadata;
      }
      ∷ [])
  pure m

abbrev pub stay : EnquiryStatus → EnquiryStatus
stay s = s

-- Auto-transition to AWAITING_CUSTOMER if currently IN_PROGRESS
abbrev pub await_customer : EnquiryStatus → EnquiryStatus
await_customer EnquiryStatus.in_progress = EnquiryStatus.awaiting_customer
await_customer s = s

-- orderBy: { createdAt: 'desc' }, take: 1
abbrev pub later : Message → Option Message → Option Message
later m none = some m
later m (some n) = if leb n.created_at m.created_at then some m else some n

unfoldable pub latest : List Message → Option Message
latest [] = none
latest (m ∷ ms) = later m (latest ms)

-- explicit > last message > first contact channel > WHATSAPP
abbrev pub pick_channel :
    Option MessageChannel → Option Message → List ContactChannel → MessageChannel
pick_channel (some c) last channels = c
pick_channel none (some m) channels = m.channel
pick_channel none none (c ∷ cs) = c.channel
pick_channel none none [] = MessageChannel.whatsapp

abbrev pub identifier_of : Option ContactChannel → Option String
identifier_of none = none
identifier_of (some c) = truthy (some c.identifier)

unfoldable pub send_message :
    Env → ℕ → (content : String) → Option MessageChannel → (user_id : String) → Exec Message
unfolding latest
send_message env id content chosen user_id = do
  row ← find_enquiry id
  e ← found row not_found
  contact ← find_contact e.contact_id
  last ← reads λ s. latest (find_many (λ (m : Message). m.enquiry_id == id) s.messages)
  let channel = pick_channel chosen last (channels_of contact)
  to ← found (identifier_of (find_channel channel (channels_of contact))) bad_request
  let o : Outgoing = record {
    channel = channel;
    to = to;
    subject = none;
    body = content;
    from = user_id;
    sent_by = some user_id;
    draft_id = none;
    source = MessageSource.human;
  }
  m ← store_outbound env id e o await_customer user_id (Metadata.message channel env.row_id)
  emit (outbound_event id o none none m)
  pure m

unfoldable pub add_outbound_message :
    Env
    → ℕ
    → MessageChannel
    → (to : String) → (subject : Option String) → (body : String) → (user_id : String)
    → (draft_id : Option ℕ) → Exec Message
add_outbound_message env id channel to subject body user_id draft_id = do
  row ← find_enquiry id
  e ← found row not_found
  let o : Outgoing = record {
    channel = channel;
    to = to;
    subject = subject;
    body = body;
    from = user_id;
    sent_by = some user_id;
    draft_id = draft_id;
    source = MessageSource.human;
  }
  m ← store_outbound env id e o stay user_id (Metadata.message channel env.row_id)
  emit (outbound_event id o subject (some user_id) m)
  pure m

unfoldable pub add_ai_reply :
    Env
    → ℕ
    → MessageChannel
    → (to : String) → (body : String) → (subject : Option String) → Exec Message
add_ai_reply env id channel to body subject = do
  row ← find_enquiry id
  e ← found row not_found
  let o : Outgoing = record {
    channel = channel;
    to = to;
    subject = subject;
    body = body;
    from = "AI";
    sent_by = none;
    draft_id = none;
    source = MessageSource.automation;
  }
  m ← store_outbound env id e o stay "SYSTEM" (Metadata.ai_message channel env.row_id)
  emit (outbound_event id o subject none m)
  pure m

-- transitionable.includes(status)
abbrev pub is_transitionable : EnquiryStatus → Bool
is_transitionable s =
    same_status s EnquiryStatus.in_progress || same_status s EnquiryStatus.follow_up

abbrev pub await : ℕ → Enquiry → Enquiry
await now e = record e {
  status = EnquiryStatus.awaiting_customer;
  version = e.version + 1;
  last_activity_at = now;
}

transition_row : Env → ℕ → Enquiry → Exec (Unit {0})
transition_row env id e =
    if not (is_transitionable e.status)
    then pure tt
    else if not (includes EnquiryStatus.awaiting_customer (transitions e.status))
    then pure tt
    else do
      row ← update_enquiry env.now id (await env.now)
      add_timeline (
          record {
            enquiry_id = id;
            type = EventType.status_changed;
            from_status = some e.status;
            to_status = some EnquiryStatus.awaiting_customer;
            created_by = "SYSTEM";
            metadata = Metadata.reason "outbound_message_sent";
          }
          ∷ [])

-- A missing enquiry is passed over.
abbrev transition_found : Env → ℕ → Option Enquiry → Exec (Unit {0})
transition_found env id none = pure tt
transition_found env id (some e) = transition_row env id e

unfoldable pub maybe_transition_on_outbound : Env → ℕ → Exec (Unit {0})
unfolding transition_row
maybe_transition_on_outbound env id = do row ← find_enquiry id; transition_found env id row
