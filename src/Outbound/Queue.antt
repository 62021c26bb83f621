-- ===== src/Outbound/Queue.antt =====
-- enqueue, handleOutbound and retryMessage of backend/src/modules/outbound/outbound.service.ts
use bravi_ai.Store.{truthy, update_message, find_message}
use bravi_ai.Exec.{Exec, ok, pure, catches, ◌>>◌, ◌>>=◌, reads, found, bad_request, throw_if}
use bravi_ai.Data.{
  DeliveryStatus, MessageAttachment, Env, Job, Message, EnqueuePayload, File, MessageChannel,
  same_delivery,
}
use bravi_ai.Prelude.{
  ◌==◌, ℕ, Option, Bool, List, some, none, is_some, String, if◌then◌else◌, ◌+◌, or_else, ◌∷◌,
  str_eq, ◌&&◌, [], true, not, false,
}

abbrev pub mark : DeliveryStatus → Message → Message
mark d m = record m { delivery_status = d }

abbrev pub has_url : MessageAttachment → Bool
has_url a = is_some (truthy a.file.cdn_url)

-- The attachments of a message that have a URL.
unfoldable pub attachments_of : ℕ → List MessageAttachment → List File
attachments_of id [] = []
attachments_of id (a ∷ rows) =
    let rest = attachments_of id rows in
    if a.message_id == id && has_url a then a.file ∷ rest else rest

abbrev pub job_of : Env → EnqueuePayload → Option String → List File → Job
job_of env p subject files = record {
  id = env.job_id;
  name = p.channel;
  message_id = p.message_id;
  enquiry_id = p.enquiry_id;
  to = p.to;
  subject = subject;
  body = p.content;
  from_user_id = or_else p.from_user_id "SYSTEM";
  attachments = files;
}

abbrev pub add_job : Job → Exec (Option ℕ)
add_job j s = (ok (some j.id), record s { outbound_queue = j ∷ s.outbound_queue })

abbrev pub fail_message : ℕ → Exec (Option ℕ)
fail_message id = do update_message id (mark DeliveryStatus.failed); pure none

-- The job of the payload's channel; a WhatsApp job carries no subject.
abbrev pub add_for : Env → EnqueuePayload → MessageChannel → List File → Exec (Option ℕ)
add_for env p MessageChannel.email files = add_job (job_of env p p.subject files)
add_for env p MessageChannel.whatsapp files = add_job (job_of env p none files)
add_for env p MessageChannel.sms files = fail_message p.message_id

abbrev pub enqueue_to : Env → EnqueuePayload → Exec (Option ℕ)
enqueue_to env p = do
  files ← reads λ s. attachments_of p.message_id s.message_attachments
  add_for env p p.channel files

-- Returns the job's identifier; none stands for the empty text.
unfoldable pub enqueue : Env → EnqueuePayload → Exec (Option ℕ)
enqueue env p = if str_eq p.to "" then fail_message p.message_id else enqueue_to env p

abbrev pub set_job : ℕ → Option ℕ → Exec (Unit {0})
set_job id none = pure tt
set_job id (some job) = update_message id (λ m. record m { queue_job_id = some job })

-- `await enqueue(...)`, and the job's identifier kept in the message.
unfoldable pub enqueue_and_record : Env → EnqueuePayload → Exec (Option ℕ)
enqueue_and_record env p = do job ← enqueue env p; set_job p.message_id job; pure job

abbrev pub job_of_message : Option Message → Option ℕ
job_of_message none = none
job_of_message (some m) = m.queue_job_id

-- The idempotency check of handleOutbound: true if the message has a job already.
unfoldable pub is_queued : ℕ → Exec Bool
is_queued id = do m ← find_message id; pure (is_some (job_of_message m))

-- What handleOutbound does after the check.
unfoldable pub queue_unless : Env → EnqueuePayload → Bool → Exec (Unit {0})
queue_unless env p true = pure tt
queue_unless env p false = do job ← enqueue_and_record env p; pure tt

-- The failure of the update in the handler is ignored.
abbrev pub mark_failed : ℕ → Exec (Unit {0})
mark_failed id = catches (update_message id (mark DeliveryStatus.failed)) (pure tt)

unfoldable pub handle_outbound : Env → EnqueuePayload → Exec (Unit {0})
unfolding is_queued queue_unless enqueue_and_record enqueue
handle_outbound env p =
    catches (do queued ← is_queued p.message_id; queue_unless env p queued)
      (mark_failed p.message_id)

abbrev pub retried : ℕ → Message → Message
retried now m = record m {
  delivery_status = DeliveryStatus.pending;
  queue_job_id = none;
  retry_count = m.retry_count + 1;
  last_retry_at = some now;
}

abbrev pub payload_of : Message → EnqueuePayload
payload_of m = record {
  message_id = m.id;
  enquiry_id = m.enquiry_id;
  channel = m.channel;
  to = or_else m.to "";
  content = m.content;
  subject = m.subject;
  from_user_id = some (or_else m.sent_by_user_id "SYSTEM");
}

unfoldable pub retry_message : Env → ℕ → Exec (Option ℕ)
unfolding enqueue_and_record enqueue
retry_message env id = do
  row ← find_message id
  m ← found row bad_request
  throw_if (not (same_delivery m.delivery_status DeliveryStatus.failed)) bad_request
  update_message id (retried env.now)
  enqueue_and_record env (payload_of m)
