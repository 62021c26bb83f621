-- ===== src/Outbound/Send.antt =====
-- backend/src/modules/outbound/outbound-send.service.ts
use bravi_ai.Outbound.Draft.{find_draft, update_draft_row}
use bravi_ai.Enquiry.Reply.{identifier_of, add_outbound_message}
use bravi_ai.Store.{truthy, find_message, find_enquiry, find_contact, find_channel, channels_of}
use bravi_ai.Exec.{
  Exec, pure, ◌>>=◌, reads, found, ◌>>◌, bad_request, not_found, throw_if, writes, forbidden, emit,
}
use bravi_ai.Outbound.Queue.{enqueue_and_record}
use bravi_ai.Data.{
  Draft, Env, MessageChannel, World, DraftAttachment, ContactChannel, MessageAttachment,
  EnqueuePayload, same_draft, DraftStatus, outbound_broadcast,
}
use bravi_ai.Text.{trim}
use bravi_ai.Prelude.{
  ◌==◌, ℕ, Option, List, String, some, Bool, str_eq, find_many, true, none, ◌∷◌, or_else, false, [],
  not, map, ◌&&◌, ◌++◌,
}

pub record SendInput : Type 0 where
  pub enquiry_id : ℕ
  pub channel : Option MessageChannel
  pub subject : Option String
  pub body : Option String
  pub draft_id : Option ℕ
  pub recipient_override : Option String
  pub user_id : String

-- `deliveryStatus` is always 'PENDING' and is left out.
pub record SendResult : Type 0 where
  pub message_id : ℕ
  pub job_id : Option ℕ
  pub contact_id : ℕ

-- What is to be sent, from the input and the draft.
pub record Content : Type 0 where
  pub channel : Option MessageChannel
  pub subject : Option String
  pub body : String

unfoldable pub is_blank : String → Bool
unfolding trim
is_blank t = str_eq (trim t) ""

abbrev pub files_of_draft : ℕ → World → List DraftAttachment
files_of_draft id s = find_many (λ (a : DraftAttachment). a.draft_id == id) s.draft_attachments

abbrev pub no_files : List DraftAttachment → Bool
no_files [] = true
no_files (a ∷ as') = false

abbrev pub draft_content : SendInput → Draft → Content
draft_content input d = record {
  channel = some d.channel;
  subject = elim input.subject [ none ↦ d.subject | some t ↦ some t ];
  body = or_else input.body (or_else d.body "");
}

-- The checks and the content when a draft is named.
unfoldable pub resolve_content : SendInput → Option ℕ → Exec Content
unfolding is_blank
resolve_content input none =
    pure (record { channel = input.channel; subject = input.subject; body = or_else input.body "" })
resolve_content input (some draft_id) = do
  row ← find_draft draft_id
  d ← found row not_found
  throw_if (not (str_eq d.created_by input.user_id)) forbidden
  throw_if (not (same_draft d.status DraftStatus.active)) bad_request
  files ← reads (files_of_draft draft_id)
  throw_if (is_blank (draft_content input d).body && no_files files) bad_request
  pure (draft_content input d)

-- recipientOverride ?? contactChannel?.identifier, refused if empty
abbrev pub recipient : Option String → Option ContactChannel → Option String
recipient (some t) c = truthy (some t)
recipient none c = identifier_of c

abbrev pub copy_file : ℕ → DraftAttachment → MessageAttachment
copy_file id a = record { message_id = id; file = a.file }

-- The draft's attachments become the message's, and the draft is CLEARED.
unfoldable pub transfer_draft : ℕ → Option ℕ → Exec (Unit {0})
transfer_draft message_id none = pure tt
transfer_draft message_id (some draft_id) = do
  files ← reads (files_of_draft draft_id)
  writes λ s. record s {
    message_attachments = map (copy_file message_id) files ++ s.message_attachments;
  }
  update_draft_row draft_id (λ d. record d { status = DraftStatus.cleared })

abbrev pub is_none : Option ℕ → Bool
is_none none = true
is_none (some a) = false

-- The message is created and takes over the draft.
unfoldable pub create_for :
    Env → SendInput → Content → MessageChannel → (to : String) → ℕ → Exec (EnqueuePayload × ℕ)
create_for env input content channel to contact_id = do
  m ←
      add_outbound_message env input.enquiry_id channel to content.subject content.body
        input.user_id input.draft_id
  transfer_draft m.id input.draft_id
  pure (
    record {
      message_id = m.id;
      enquiry_id = input.enquiry_id;
      channel = channel;
      to = to;
      content = content.body;
      subject = content.subject;
      from_user_id = some input.user_id;
    },
    contact_id,
  )

unfoldable pub create_from : Env → SendInput → Content → Exec (EnqueuePayload × ℕ)
unfolding is_blank
create_from env input content = do
  channel ← found content.channel bad_request
  throw_if (is_blank content.body && is_none input.draft_id) bad_request
  row ← find_enquiry input.enquiry_id
  e ← found row not_found
  contact ← find_contact e.contact_id
  to ←
      found (recipient input.recipient_override (find_channel channel (channels_of contact)))
        bad_request
  create_for env input content channel to e.contact_id

-- Everything before the direct enqueue(); returns the payload to queue and the contact.
unfoldable pub prepare_send : Env → SendInput → Exec (EnqueuePayload × ℕ)
prepare_send env input = do
  content ← resolve_content input input.draft_id
  create_from env input content

unfoldable pub send : Env → SendInput → Exec SendResult
send env input = do
  (p, contact_id) ← prepare_send env input
  job ← enqueue_and_record env p
  pure (record { message_id = p.message_id; job_id = job; contact_id = contact_id })

abbrev pub first_channel : List ContactChannel → Option ContactChannel
first_channel [] = none
first_channel (c ∷ cs) = some c

-- The source's channel if the target contact has it, else the first.
abbrev pub forward_channel : Option ContactChannel → List ContactChannel → Option ContactChannel
forward_channel none cs = first_channel cs
forward_channel (some c) cs = some c

abbrev pub copy_attachment : ℕ → MessageAttachment → MessageAttachment
copy_attachment id a = record a { message_id = id }

abbrev pub none_left : List MessageAttachment → Bool
none_left [] = true
none_left (a ∷ as') = false

unfoldable pub forward : Env → (source_message_id target_enquiry_id : ℕ) → String → Exec SendResult
unfolding is_blank enqueue_and_record
forward env source_id target_id user_id = do
  row ← find_message source_id
  m ← found row not_found
  throw_if m.is_deleted bad_request
  files ←
      reads
        λ s. find_many (λ (a : MessageAttachment). a.message_id == source_id) s.message_attachments
  throw_if (is_blank m.content && none_left files) bad_request
  target ← find_enquiry target_id
  e ← found target not_found
  contact ← find_contact e.contact_id
  let channels = channels_of contact
  c ← found (forward_channel (find_channel m.channel channels) channels) bad_request
  n ← add_outbound_message env target_id c.channel c.identifier m.subject m.content user_id none
  writes λ s. record s {
    message_attachments = map (copy_attachment n.id) files ++ s.message_attachments;
  }
  job ← enqueue_and_record env (record {
    message_id = n.id;
    enquiry_id = target_id;
    channel = c.channel;
    to = c.identifier;
    content = m.content;
    subject = m.subject;
    from_user_id = some user_id;
  })
  emit (outbound_broadcast e.contact_id target_id n.id)
  pure (record { message_id = n.id; job_id = job; contact_id = e.contact_id })
