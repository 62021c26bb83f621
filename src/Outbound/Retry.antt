-- ===== src/Outbound/Retry.antt =====
-- A retry from the dead letters and the handling of its event: retryFromDlq of
-- backend/src/modules/outbound/dlq/dlq.service.ts and handleOutbound of
-- backend/src/modules/outbound/outbound.service.ts.
use bravi_ai.Outbound.DeadLetters.{retry_from_dlq, reset_message, resolve_letter, letter_by}
use bravi_ai.Outbound.Queue.{handle_outbound, payload_of}
use bravi_ai.Outbound.Idempotence.{IsQueueable, handle_outbound_twice, job_for, with_job}
use bravi_ai.Outbound.Attempts.{find-put}
use bravi_ai.Store.{message_by}
use bravi_ai.Exec.{ok}
use bravi_ai.Data.{Env, World, DeadLetter, Message, message_outbound}
use bravi_ai.Prelude.{
  ℕ, String, some, ◌≡◌, ◌∷◌, find_first, update_where, refl, arith, sym, ==_iff, find_first-IsTrue,
  subst, find_first-update_where,
}

-- The world after a retry of a letter whose message exists.
abbrev retried_world : Env → ℕ → String → Message → World → World
retried_world env id admin m s = record s {
  messages = update_where (message_by m.id) (reset_message env.now) s.messages;
  events = message_outbound (payload_of m) ∷ s.events;
  dead_letters = update_where (letter_by id) (resolve_letter env.now admin) s.dead_letters;
}

retry_from_dlq_lem :
    (env : Env) (id : ℕ) (admin : String) (s : World) (d : DeadLetter) (m : Message)
    → find_first (letter_by id) s.dead_letters ≡ some d
    → find_first (message_by d.message_id) s.messages ≡ some m
    → find_first (message_by m.id) s.messages ≡ some m
    → retry_from_dlq env id admin s ≡ (ok tt, retried_world env id admin m s)
unfolding retry_from_dlq
retry_from_dlq_lem env id admin s d m p q r = ground arith

-- A retry of a dead letter whose message can be queued resolves the letter in the admin's name, and
-- the handling of the event that it emits adds exactly one job and gives it to the message.
pub retry_from_dlq_queues :
    (env later : Env) (id : ℕ) (admin : String) (s : World) (d : DeadLetter) (m : Message)
    → find_first (letter_by id) s.dead_letters ≡ some d
    → find_first (message_by d.message_id) s.messages ≡ some m
    → IsQueueable (payload_of m)
    → let (r, t) = retry_from_dlq env id admin s in
      let u = (handle_outbound later (payload_of m) t).1 in
      (r ≡ ok tt)
      × (t.events ≡ message_outbound (payload_of m) ∷ s.events)
      × (find_first (letter_by id) t.dead_letters ≡ some (resolve_letter env.now admin d))
      × (u.outbound_queue ≡ job_for later (payload_of m) t ∷ s.outbound_queue)
      × (find_first (message_by m.id) u.messages
          ≡ some (with_job later.job_id (reset_message env.now m)))
retry_from_dlq_queues env later id admin s d m p q a =
    let same : d.message_id ≡ m.id =
      sym (
        (==_iff m.id d.message_id).0
          (find_first-IsTrue (message_by d.message_id) s.messages m q)) in
    let own : find_first (message_by m.id) s.messages ≡ some m =
      subst (λ i. find_first (message_by i) s.messages ≡ some m) same q in
    let t = retried_world env id admin m s in
    let reset = find-put m.id (reset_message env.now) s.messages m (λ a. refl) own in
    let letter : find_first (letter_by id) t.dead_letters ≡ some (resolve_letter env.now admin d) =
      rw
        (
          find_first-update_where (letter_by id) (letter_by id) (resolve_letter env.now admin)
              (λ a. refl) s.dead_letters,
          p,
          find_first-IsTrue (letter_by id) s.dead_letters d p,
        )
        refl in
    let queued =
      handle_outbound_twice later later (payload_of m) t (reset_message env.now m) a reset refl in
    rw (retry_from_dlq_lem env id admin s d m p q own) (refl, refl, letter, queued.0, queued.1)
