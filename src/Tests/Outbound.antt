-- ===== src/Tests/Outbound.antt =====
-- The outbound theorems at concrete inputs.
use bravi_ai.Outbound.Retry.{retry_from_dlq_queues}
use bravi_ai.Outbound.DeadLetters.{letter_by, retry_from_dlq, resolve_letter, reset_message}
use bravi_ai.Outbound.Ownership.{send_again_fails, other_users_draft}
use bravi_ai.Outbound.Cleanup.{clean_orphaned_files-keeps}
use bravi_ai.Outbound.Draft.{draft_by, UpdateDraft, discard_draft, save_for_later, update_draft}
use bravi_ai.Outbound.Draft.Cleanup.{is_referenced, has_key, clean_orphaned_files}
use bravi_ai.Outbound.Draft.Attachments.{Upload, add_attachment, remove_attachment}
use bravi_ai.Enquiry.Reply.{add_outbound_message, store_outbound}
use bravi_ai.Exec.{ok, err, forbidden, bad_request}
use bravi_ai.Outbound.Idempotence.{job_for, with_job, double_queue}
use bravi_ai.Outbound.Attempts.{fail_for, UnresolvedFor, process_once, failed_ends_attempts}
use bravi_ai.Outbound.Delivery.{rank}
use bravi_ai.Outbound.Ranks.{report_all, report_all-rank}
use bravi_ai.Store.{message_by}
use bravi_ai.Outbound.Send.{
  SendInput, prepare_send, resolve_content, create_from, create_for, transfer_draft, is_blank,
}
use bravi_ai.Outbound.Queue.{
  handle_outbound, payload_of, enqueue_and_record, queue_unless, is_queued,
}
use bravi_ai.Outbound.Processor.{process, on_job_failed, sent_as, accept_send, letter_of}
use bravi_ai.Prelude.{
  find_first, none, [], ◌≡◌, some, refl, ◌∷◌, false, ◌≤◌, All, String, update_where, find_many,
  true, ◌⊎◌,
}
use bravi_ai.Data.{
  Job, EnqueuePayload, Message, MessageChannel, DeliveryStatus, message_outbound, File, World, Env,
  AttachmentKind, DraftStatus, DeadLetter,
}
use bravi_ai.Tests.Sample.{world, env, waiting, later, draft}

abbrev job : Job
job = record {
  id = 7;
  name = MessageChannel.email;
  message_id = 20;
  enquiry_id = 10;
  to = "ana@x.io";
  subject = none;
  body = "Hello";
  from_user_id = "u1";
  attachments = [];
}

abbrev payload : EnqueuePayload
payload = payload_of waiting

found_waiting : find_first (message_by 20) world.messages ≡ some waiting
unfolding find_first
found_waiting = refl

process_once_example :
    let t = (process env job 0 (sent_as (some "x1")) world).1 in
    (find_first (message_by 20) t.messages ≡ some (accept_send (some "x1") waiting))
    × (process later job 1 (sent_as none) t ≡ (ok tt, t))
process_once_example =
    process_once env job 0 (some "x1") world waiting refl found_waiting refl later job 1
      (sent_as none) refl

failed_ends_attempts_example :
    let t = (on_job_failed env job 1 "timeout" world).1 in
    (find_first (message_by 20) t.messages ≡ some (fail_for "timeout" waiting))
    × UnresolvedFor (find_first (letter_of 20) t.dead_letters)
    × (process later job 1 (sent_as none) t ≡ (ok tt, t))
failed_ends_attempts_example =
    failed_ends_attempts env job 1 "timeout" world waiting found_waiting later 1 (sent_as none)

abbrev input : SendInput
input = record {
  enquiry_id = 10;
  channel = none;
  subject = none;
  body = none;
  draft_id = some 30;
  recipient_override = none;
  user_id = "u1";
}

abbrev offer : EnqueuePayload
offer = record {
  message_id = 50;
  enquiry_id = 10;
  channel = MessageChannel.email;
  to = "ana@x.io";
  content = "Offer";
  subject = none;
  from_user_id = some "u1";
}

prepared : (prepare_send env input world).0 ≡ ok (offer, 1)
unfolding prepare_send resolve_content create_from create_for transfer_draft add_outbound_message
    store_outbound find_first
prepared = refl

double_queue_example :
    let t = (prepare_send env input world).1 in
    let u = (enqueue_and_record env offer t).1 in
    let v = (queue_unless later offer false u).1 in
    (t.events ≡ message_outbound offer ∷ world.events)
    × (is_queued 50 t ≡ (ok false, t))
    × (v.outbound_queue ≡ job_for later offer u ∷ job_for env offer t ∷ t.outbound_queue)
double_queue_example = double_queue env input world offer 1 prepared refl env later

report_all-rank_example :
    (n : Message) × (find_first
        (message_by 20)
        (report_all env 20 (DeliveryStatus.read ∷ DeliveryStatus.sent ∷ []) world).messages
      ≡ some n)
    × (1 ≤ rank n.delivery_status)
    × All (λ d. rank d ≤ rank n.delivery_status) (DeliveryStatus.read ∷ DeliveryStatus.sent ∷ [])
report_all-rank_example =
    report_all-rank env 20 (DeliveryStatus.read ∷ DeliveryStatus.sent ∷ []) world waiting
      (refl, (refl, tt)) found_waiting

found_draft : find_first (draft_by 30) world.drafts ≡ some draft
unfolding find_first
found_draft = refl

abbrev new_body : UpdateDraft
new_body = record { channel = none; subject = none; body = some "Mine" }

abbrev photo : Upload
photo = record { name = "a.png"; mime = "image/png"; size = 9; key = "k1"; url = "https://x.io/k1" }

abbrev from_draft : String → SendInput
from_draft user = record {
  enquiry_id = 10;
  channel = none;
  subject = none;
  body = none;
  draft_id = some 30;
  recipient_override = none;
  user_id = user;
}

other_users_draft_example :
    (discard_draft 30 "u2" world ≡ (err forbidden, world))
    × (save_for_later env 30 "u2" world ≡ (err forbidden, world))
    × (update_draft env 30 new_body "u2" world ≡ (err forbidden, world))
    × (add_attachment env 30 photo "u2" world ≡ (err forbidden, world))
    × (remove_attachment 30 1 "u2" world ≡ (err forbidden, world))
    × (prepare_send env (from_draft "u2") world ≡ (err forbidden, world))
other_users_draft_example =
    other_users_draft env 30 "u2" world draft found_draft refl new_body photo 1 (from_draft "u2")
      refl refl

prepared_from_draft :
    (prepare_send env (from_draft "u1") world).0
    ≡ ok (
      record {
        message_id = 50;
        enquiry_id = 10;
        channel = MessageChannel.email;
        to = "ana@x.io";
        content = "Offer";
        subject = none;
        from_user_id = some "u1";
      },
      1,
    )
unfolding prepare_send resolve_content create_from create_for transfer_draft add_outbound_message
    store_outbound find_first update_where find_many is_blank
prepared_from_draft = refl

send_again_fails_example :
    let t = (prepare_send env (from_draft "u1") world).1 in
    (prepare_send later (from_draft "u1") t ≡ (err bad_request, t))
    ⊎ (prepare_send later (from_draft "u1") t ≡ (err forbidden, t))
send_again_fails_example =
    send_again_fails env (from_draft "u1") 30 world _ refl prepared_from_draft later
      (from_draft "u1") refl

abbrev photo_file : File
photo_file = record {
  kind = AttachmentKind.image;
  file_name = "a.png";
  mime_type = "image/png";
  file_size = 9;
  storage_key = "k1";
  cdn_url = none;
}

-- The file of a cleared draft that was sent along with message 20.
abbrev sent_photo : World
sent_photo = record world {
  storage = "k1" ∷ [];
  drafts = record draft { status = DraftStatus.cleared } ∷ [];
  draft_attachments = record { id = 40; draft_id = 30; file = photo_file; created_at = 0 } ∷ [];
  message_attachments = record { message_id = 20; file = photo_file } ∷ [];
}

abbrev days_later : Env
days_later = record { now = 200000000; row_id = 70; job_id = 9 }

photo_sent : is_referenced sent_photo.message_attachments "k1" ≡ true
unfolding is_referenced
photo_sent = refl

photo_stored : has_key sent_photo.storage "k1" ≡ true
unfolding has_key
photo_stored = refl

clean_orphaned_files-keeps_example :
    let t = (clean_orphaned_files days_later sent_photo).1 in
    (has_key t.storage "k1" ≡ true) × (t.message_attachments ≡ sent_photo.message_attachments)
clean_orphaned_files-keeps_example =
    clean_orphaned_files-keeps days_later sent_photo "k1" photo_sent photo_stored

abbrev letter : DeadLetter
letter = record {
  id = 80;
  message_id = 20;
  job_name = MessageChannel.email;
  last_error = "timeout";
  attempt_count = 3;
  resolved_at = none;
  resolved_by = none;
}

abbrev with_letter : World
with_letter = record world { dead_letters = letter ∷ [] }

found_letter : find_first (letter_by 80) with_letter.dead_letters ≡ some letter
unfolding find_first
found_letter = refl

retry_from_dlq_queues_example :
    let (r, t) = retry_from_dlq env 80 "admin" with_letter in
    let u = (handle_outbound later payload t).1 in
    (r ≡ ok tt)
    × (t.events ≡ message_outbound payload ∷ with_letter.events)
    × (find_first (letter_by 80) t.dead_letters ≡ some (resolve_letter 1000 "admin" letter))
    × (u.outbound_queue ≡ job_for later payload t ∷ with_letter.outbound_queue)
    × (find_first (message_by 20) u.messages ≡ some (with_job 8 (reset_message 1000 waiting)))
retry_from_dlq_queues_example =
    retry_from_dlq_queues env later 80 "admin" with_letter letter waiting found_letter found_waiting
      (refl, refl)
