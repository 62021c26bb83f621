-- ===== src/Outbound/Idempotence.antt =====
-- The idempotency check of handleOutbound in backend/src/modules/outbound/outbound.service.ts, alone
-- and against OutboundSendService.send of backend/src/modules/outbound/outbound-send.service.ts.
use bravi_ai.Outbound.Processor.{is_pending}
use bravi_ai.Outbound.Attempts.{find-put}
use bravi_ai.Exec.{ok, Result, found_rule, bind_rule, bad_request, throw_if_rule, not_found}
use bravi_ai.Store.{message_by, enquiry_by, find_channel, channels_of, contact_by}
use bravi_ai.Enquiry.Reply.{add_outbound_message, store_outbound}
use bravi_ai.Outbound.Send.{
  SendInput, transfer_draft, create_for, Content, resolve_content, create_from, prepare_send,
  recipient, is_blank, is_none,
}
use bravi_ai.Prelude.{
  ℕ, str_eq, ◌≡◌, some, ◌∷◌, find_first, false, update_where, if◌then◌else◌, none, arith, refl,
  String, Option, ==_refl, true, subst, sym, ◌&&◌,
}
use bravi_ai.Data.{
  EnqueuePayload, Env, Message, World, Job, same_channel, MessageChannel, message_outbound,
  DeliveryStatus, ContactChannel,
}
use bravi_ai.Outbound.Queue.{
  handle_outbound, enqueue_and_record, enqueue, job_of, attachments_of, job_of_message, is_queued,
  queue_unless,
}

-- A payload that enqueue() can turn into a job.
abbrev pub IsQueueable : EnqueuePayload → Type 0
IsQueueable p = (str_eq p.to "" ≡ false) × (same_channel p.channel MessageChannel.sms ≡ false)

abbrev pub with_job : ℕ → Message → Message
with_job job m = record m { queue_job_id = some job }

-- The job that enqueue() makes of a payload in a world.
abbrev pub job_for : Env → EnqueuePayload → World → Job
job_for env p s =
    job_of env p (if same_channel p.channel MessageChannel.email then p.subject else none)
      (attachments_of p.message_id s.message_attachments)

abbrev pub queued_world : Env → EnqueuePayload → World → World
queued_world env p s = record s {
  outbound_queue = job_for env p s ∷ s.outbound_queue;
  messages = update_where (message_by p.message_id) (with_job env.job_id) s.messages;
}

enqueue_and_record_lem :
    (env : Env) (p : EnqueuePayload) (s : World) (m : Message)
    → IsQueueable p
    → find_first (message_by p.message_id) s.messages ≡ some m
    → enqueue_and_record env p s ≡ (ok (some env.job_id), queued_world env p s)
unfolding enqueue_and_record enqueue
enqueue_and_record_lem env p s m q h = ground arith

handle_outbound_lem :
    (env : Env) (p : EnqueuePayload) (s : World) (m : Message)
    → IsQueueable p
    → find_first (message_by p.message_id) s.messages ≡ some m
    → m.queue_job_id ≡ none
    → handle_outbound env p s ≡ (ok tt, queued_world env p s)
unfolding handle_outbound
handle_outbound_lem env p s m q h n = ground arith

handle_outbound-skips :
    (env : Env) (p : EnqueuePayload) (s : World) (m : Message) (job : ℕ)
    → find_first (message_by p.message_id) s.messages ≡ some m
    → m.queue_job_id ≡ some job
    → handle_outbound env p s ≡ (ok tt, s)
unfolding handle_outbound
handle_outbound-skips env p s m job h n = ground arith

-- Handled one after the other, two deliveries of the event of a queueable message add one job: the
-- first queues it and keeps the job's identifier in the message, the second changes nothing.
pub handle_outbound_twice :
    (env later : Env) (p : EnqueuePayload) (s : World) (m : Message)
    → IsQueueable p
    → find_first (message_by p.message_id) s.messages ≡ some m
    → m.queue_job_id ≡ none
    → let t = (handle_outbound env p s).1 in
      (t.outbound_queue ≡ job_for env p s ∷ s.outbound_queue)
      × (find_first (message_by p.message_id) t.messages ≡ some (with_job env.job_id m))
      × (handle_outbound later p t ≡ (ok tt, t))
handle_outbound_twice env later p s m q h n =
    let e = handle_outbound_lem env p s m q h n in
    let f = find-put p.message_id (with_job env.job_id) s.messages m (λ a. refl) h in
    rw e (
      refl,
      f,
      handle_outbound-skips later p (queued_world env p s) (with_job env.job_id m) env.job_id f
          refl,
    )

-- What a call that creates an outbound message leaves: its event, and the message, PENDING and with
-- no job.
abbrev Created : World → World → EnqueuePayload → Type 0
Created s t p =
    (t.events ≡ message_outbound p ∷ s.events)
    × (job_of_message (find_first (message_by p.message_id) t.messages) ≡ none)
    × (is_pending (find_first (message_by p.message_id) t.messages) ≡ true)

add_outbound_message-ok :
    (env : Env) (id : ℕ) (channel : MessageChannel) (to : String) (subject : Option String)
    (body user : String) (draft : Option ℕ) (s : World) (m : Message)
    → let r = add_outbound_message env id channel to subject body user draft s in
      r.0 ≡ ok m
      → (r.1.events
          ≡ message_outbound (record {
            message_id = m.id;
            enquiry_id = id;
            channel = channel;
            to = to;
            content = body;
            subject = subject;
            from_user_id = some user;
          })
            ∷ s.events)
        × (r.1.messages ≡ m ∷ s.messages)
        × (m.queue_job_id ≡ none)
        × (m.delivery_status ≡ DeliveryStatus.pending)
unfolding add_outbound_message store_outbound
add_outbound_message-ok env id channel to subject body user draft s m h = ground arith

transfer_draft-keeps :
    (id : ℕ) (draft : Option ℕ) (s : World)
    → ((transfer_draft id draft s).1.events ≡ s.events)
      × ((transfer_draft id draft s).1.messages ≡ s.messages)
unfolding transfer_draft
transfer_draft-keeps id draft s = ground arith

create_for-Created :
    (env : Env) (input : SendInput) (content : Content) (channel : MessageChannel) (to : String)
    (contact c : ℕ) (s : World) (p : EnqueuePayload)
    → (create_for env input content channel to contact s).0 ≡ ok (p, c)
    → Created s (create_for env input content channel to contact s).1 p
      × (p.to ≡ to)
      × (p.channel ≡ channel)
unfolding create_for find_first
create_for-Created env input content channel to contact c s p h =
    grind (arith, add_outbound_message-ok, transfer_draft-keeps, ==_refl)

recipient-ne_empty :
    (o : Option String) (c : Option ContactChannel) (t : String)
    → recipient o c ≡ some t
    → str_eq t "" ≡ false
recipient-ne_empty o c t h = ground arith

pub resolve_content-reads :
    (input : SendInput) (d : Option ℕ) (s : World) → (resolve_content input d s).1 ≡ s
unfolding resolve_content
resolve_content-reads input d s = ground arith

-- A result with a payload has made its message.
abbrev Makes : World → EnqueuePayload → ℕ → Result (EnqueuePayload × ℕ) × World → Type 0
Makes s p c r = r.0 ≡ ok (p, c) → Created s r.1 p × (str_eq p.to "" ≡ false)

create_for-Makes :
    (env : Env) (input : SendInput) (content : Content) (channel : MessageChannel) (to : String)
    (contact c : ℕ) (s : World) (p : EnqueuePayload)
    → str_eq to "" ≡ false
    → Makes s p c (create_for env input content channel to contact s)
create_for-Makes env input content channel to contact c s p e h =
    let (made, same, _) = create_for-Created env input content channel to contact c s p h in
    (made, subst (λ t. str_eq t "" ≡ false) (sym same) e)

create_from-Makes :
    (env : Env) (input : SendInput) (content : Content) (c : ℕ) (s : World) (p : EnqueuePayload)
    → Makes s p c (create_from env input content s)
unfolding create_from
create_from-Makes env input content c s p =
    found_rule (Makes s p c) _ s content.channel bad_request (λ h. cc)
      λ channel _.
        throw_if_rule (Makes s p c) _ s (is_blank content.body && is_none input.draft_id)
          bad_request (λ h. cc)
          λ _.
            found_rule (Makes s p c) _ s (find_first (enquiry_by input.enquiry_id) s.enquiries)
              not_found (λ h. cc)
              λ e _.
                found_rule (Makes s p c) _ s
                  (recipient input.recipient_override (
                    find_channel channel
                      (channels_of (find_first (contact_by e.contact_id) s.contacts))))
                  bad_request (λ h. cc)
                  λ to found_to.
                    create_for-Makes env input content channel to e.contact_id c s p
                      (recipient-ne_empty input.recipient_override _ to found_to)

prepare_send-Created :
    (env : Env) (input : SendInput) (c : ℕ) (s : World) (p : EnqueuePayload)
    → Makes s p c (prepare_send env input s)
unfolding prepare_send
prepare_send-Created env input c s p =
    bind_rule (Makes s p c) (create_from env input) s (resolve_content input input.draft_id s)
      (λ e _ h. cc)
      λ content _.
        rw (resolve_content-reads input input.draft_id s)
          (create_from-Makes env input content c s p)

message-of :
    (o : Option Message)
    → job_of_message o ≡ none
    → is_pending o ≡ true
    → (m : Message) × (o ≡ some m) × (m.queue_job_id ≡ none)
message-of none h k = cc
message-of (some m) h k = (m, refl, h)

-- The check and the direct enqueue() of one send can interleave: send() emits the event, the handler
-- reads that the message has no job, send() queues its job, and the handler queues a second job for
-- the same message. This happens after every successful preparation for EMAIL or WHATSAPP.
pub double_queue :
    (env : Env) (input : SendInput) (s : World) (p : EnqueuePayload) (c : ℕ)
    → (prepare_send env input s).0 ≡ ok (p, c)
    → same_channel p.channel MessageChannel.sms ≡ false
    → (first second : Env)
    → let t = (prepare_send env input s).1 in
      let u = (enqueue_and_record first p t).1 in
      let v = (queue_unless second p false u).1 in
      (t.events ≡ message_outbound p ∷ s.events)
      × (is_queued p.message_id t ≡ (ok false, t))
      × (v.outbound_queue ≡ job_for second p u ∷ job_for first p t ∷ t.outbound_queue)
unfolding is_queued queue_unless
double_queue env input s p c h k first second =
    let (made, to) = prepare_send-Created env input c s p h in
    let t = (prepare_send env input s).1 in
    let (m, q, n) = message-of (find_first (message_by p.message_id) t.messages) made.1 made.2 in
    let e = enqueue_and_record_lem first p t m (to, k) q in
    let f = find-put p.message_id (with_job first.job_id) t.messages m (λ a. refl) q in
    let g =
      enqueue_and_record_lem second p (queued_world first p t) (with_job first.job_id m) (to, k)
        f in
    (made.0, rw (q, n) refl, rw e (rw g refl))
