-- ===== src/Outbound/Attempts.antt =====
-- Attempts of one outbound job under backend/src/modules/outbound/outbound.processor.ts.
use bravi_ai.Exec.{ok}
use bravi_ai.Store.{message_by}
use bravi_ai.Prelude.{
  ℕ, ◌≡◌, List, Option, find_first, arith, String, some, false, update_where,
  find_first-update_where, ap, ◌==◌, find_first-IsTrue, refl, ◌∷◌, none, if◌then◌else◌, is_some,
  Option-cases, inl, ==_refl, inr,
}
use bravi_ai.Enquiry.Reply.{maybe_transition_on_outbound}
use bravi_ai.Data.{
  Env, Job, World, Message, same_channel, MessageChannel, DeliveryStatus, outbound_sent, DeadLetter,
}
use bravi_ai.Outbound.Processor.{
  process, Answer, try_transition, is_pending, sent_as, accept_send, on_job_failed, letter_of,
  renew_letter, new_letter,
}

-- A message that is not PENDING is not sent again, whatever the router would answer.
process-idle :
    (env : Env) (j : Job) (attempts : ℕ) (answer : Answer) (s : World) (o : Option Message)
    → find_first (message_by j.message_id) s.messages ≡ o
    → is_pending o ≡ false
    → process env j attempts answer s ≡ (ok tt, s)
unfolding process
process-idle env j attempts answer s o p h = ground arith

messages-transition :
    (env : Env) (id : ℕ) (s : World)
    → ((maybe_transition_on_outbound env id s).1.messages ≡ s.messages)
unfolding maybe_transition_on_outbound
messages-transition env id s = ground arith

messages-try : (env : Env) (id : ℕ) (s : World) → (try_transition env id s).1.messages ≡ s.messages
messages-try env id s = ground (arith, messages-transition env id s)

pub find-put :
    (id : ℕ) (f : Message → Message) (ms : List Message) (m : Message)
    → ((a : Message) → (f a).id ≡ a.id)
    → find_first (message_by id) ms ≡ some m
    → find_first (message_by id) (update_where (message_by id) f ms) ≡ some (f m)
find-put id f ms m h p = rw (
  find_first-update_where (message_by id) (message_by id) f (λ a. ap (λ k. k == id) (h a)) ms,
  p,
  find_first-IsTrue (message_by id) ms m p,
)

abbrev sent_world : Env → Job → Option String → World → World
sent_world env j external s = record s {
  messages = update_where (message_by j.message_id) (accept_send external) s.messages;
  events = outbound_sent j.message_id j.enquiry_id env.now ∷ s.events;
}

messages-process_sent :
    (env : Env) (j : Job) (attempts : ℕ) (external : Option String) (s : World) (m : Message)
    → same_channel j.name MessageChannel.sms ≡ false
    → find_first (message_by j.message_id) s.messages ≡ some m
    → m.delivery_status ≡ DeliveryStatus.pending
    → (process env j attempts (sent_as external) s).1.messages
      ≡ update_where (message_by j.message_id) (accept_send external) s.messages
unfolding process
messages-process_sent env j attempts external s m c p h =
    ground (arith, messages-transition env j.enquiry_id (sent_world env j external s))

-- The message of a pending job that the router accepts becomes SENT under the provider's identifier,
-- and in the world that this leaves no attempt of any job for the message sends again or changes
-- anything, whatever the router would answer.
pub process_once :
    (env : Env) (j : Job) (attempts : ℕ) (external : Option String) (s : World) (m : Message)
    → same_channel j.name MessageChannel.sms ≡ false
    → find_first (message_by j.message_id) s.messages ≡ some m
    → m.delivery_status ≡ DeliveryStatus.pending
    → (later : Env) (k : Job) (n : ℕ) (answer : Answer) → k.message_id ≡ j.message_id
    → let t = (process env j attempts (sent_as external) s).1 in
      (find_first (message_by j.message_id) t.messages ≡ some (accept_send external m))
      × (process later k n answer t ≡ (ok tt, t))
process_once env j attempts external s m c p h later k n answer e =
    let t = (process env j attempts (sent_as external) s).1 in
    let q : find_first (message_by j.message_id) t.messages ≡ some (accept_send external m) =
      rw (messages-process_sent env j attempts external s m c p h)
        (find-put j.message_id (accept_send external) s.messages m (λ a. refl) p) in
    (q, process-idle later k n answer t (some (accept_send external m)) (rw e q) refl)

abbrev pub fail_for : String → Message → Message
fail_for reason m = record m { delivery_status = DeliveryStatus.failed; fail_reason = some reason }

-- The failure handler marks the message FAILED and leaves an unresolved dead letter for it.
on_job_failed-marks :
    (env : Env) (j : Job) (attempts : ℕ) (reason : String) (s : World) (m : Message)
    → find_first (message_by j.message_id) s.messages ≡ some m
    → find_first (message_by j.message_id) (on_job_failed env j attempts reason s).1.messages
      ≡ some (fail_for reason m)
unfolding on_job_failed
on_job_failed-marks env j attempts reason s m p =
    ground (arith, find-put j.message_id (fail_for reason) s.messages m (λ a. refl) p)

abbrev pub UnresolvedFor : Option DeadLetter → Type 0
UnresolvedFor none = ⊥
UnresolvedFor (some d) = d.resolved_at ≡ none

letter-upsert :
    (env : Env) (j : Job) (reason : String) (attempts : ℕ) (ls : List DeadLetter)
    → UnresolvedFor (
        find_first (letter_of j.message_id) (
          if is_some (find_first (letter_of j.message_id) ls)
          then update_where (letter_of j.message_id) (renew_letter reason attempts) ls
          else new_letter env j reason attempts ∷ ls))
letter-upsert env j reason attempts ls =
    elim (Option-cases (find_first (letter_of j.message_id) ls)) [
      | inl p ↦ rw p (unfold find_first in rw (==_refl j.message_id) refl)
      | inr (d, p) ↦ rw p (
          rw
            (
              find_first-update_where (letter_of j.message_id) (letter_of j.message_id)
                  (renew_letter reason attempts) (λ a. refl) ls,
              p,
              find_first-IsTrue (letter_of j.message_id) ls d p,
            )
            refl)
    ]

dead_letters-on_job_failed :
    (env : Env) (j : Job) (attempts : ℕ) (reason : String) (s : World) (m : Message)
    → find_first (message_by j.message_id) s.messages ≡ some m
    → (on_job_failed env j attempts reason s).1.dead_letters ≡ (
        if is_some (find_first (letter_of j.message_id) s.dead_letters)
        then update_where (letter_of j.message_id) (renew_letter reason attempts) s.dead_letters
        else new_letter env j reason attempts ∷ s.dead_letters)
unfolding on_job_failed
dead_letters-on_job_failed env j attempts reason s m p = ground arith

-- Once the failure handler has run for a job whose message exists, the message is FAILED with the
-- reason and has an unresolved dead letter, and in the world that this leaves every attempt of the
-- job returns without sending or changing anything, whatever the router would answer.
pub failed_ends_attempts :
    (env : Env) (j : Job) (attempts : ℕ) (reason : String) (s : World) (m : Message)
    → find_first (message_by j.message_id) s.messages ≡ some m
    → (later : Env) (n : ℕ) (answer : Answer)
    → let t = (on_job_failed env j attempts reason s).1 in
      (find_first (message_by j.message_id) t.messages ≡ some (fail_for reason m))
      × UnresolvedFor (find_first (letter_of j.message_id) t.dead_letters)
      × (process later j n answer t ≡ (ok tt, t))
failed_ends_attempts env j attempts reason s m p later n answer =
    let q = on_job_failed-marks env j attempts reason s m p in
    (
      q,
      rw (dead_letters-on_job_failed env j attempts reason s m p)
          (letter-upsert env j reason attempts s.dead_letters),
      process-idle later j n answer (on_job_failed env j attempts reason s).1
          (some (fail_for reason m)) q refl,
    )
