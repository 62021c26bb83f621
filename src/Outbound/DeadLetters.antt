-- ===== src/Outbound/DeadLetters.antt =====
-- backend/src/modules/outbound/dlq/dlq.service.ts
use bravi_ai.Outbound.Queue.{payload_of}
use bravi_ai.Store.{find_message, update_message}
use bravi_ai.Exec.{Exec, ◌>>=◌, reads, found, record_missing, not_found, writes, ◌>>◌, emit}
use bravi_ai.Data.{Env, DeadLetter, Message, DeliveryStatus, message_outbound}
use bravi_ai.Prelude.{
  ◌==◌, ℕ, Bool, String, Option, some, not, List, none, is_some, find_first, ◌+◌, find_many, take,
  update_where, drop, ◌-◌, ◌*◌, length,
}

abbrev pub letter_by : ℕ → DeadLetter → Bool
letter_by id d = d.id == id

abbrev pub find_letter : ℕ → Exec (Option DeadLetter)
find_letter id = reads λ s. find_first (letter_by id) s.dead_letters

abbrev pub resolve_letter : ℕ → String → DeadLetter → DeadLetter
resolve_letter now admin d = record d { resolved_at = some now; resolved_by = some admin }

abbrev pub update_letter : ℕ → (DeadLetter → DeadLetter) → Exec (Unit {0})
update_letter id f = do
  old ← find_letter id
  d ← found old record_missing
  writes λ s. record s { dead_letters = update_where (letter_by id) f s.dead_letters }

-- What a retry from the queue of dead letters resets.
abbrev pub reset_message : ℕ → Message → Message
reset_message now m = record m {
  delivery_status = DeliveryStatus.pending;
  queue_job_id = none;
  fail_reason = none;
  retry_count = m.retry_count + 1;
  last_retry_at = some now;
}

unfoldable pub retry_from_dlq : Env → ℕ → String → Exec (Unit {0})
retry_from_dlq env id admin = do
  row ← find_letter id
  d ← found row not_found
  message ← find_message d.message_id
  m ← found message not_found
  update_message m.id (reset_message env.now)
  emit (message_outbound (payload_of m))
  update_letter id (resolve_letter env.now admin)

unfoldable pub discard : Env → ℕ → String → Exec (Unit {0})
discard env id admin = do
  row ← find_letter id
  d ← found row not_found
  update_letter id (resolve_letter env.now admin)

abbrev pub is_unresolved : DeadLetter → Bool
is_unresolved d = not (is_some d.resolved_at)

-- listFailed: page `page` of the unresolved letters, newest first, and their number.
unfoldable pub list_failed : (page limit : ℕ) → Exec (List DeadLetter × ℕ)
list_failed page limit = reads λ s.
    let letters = find_many is_unresolved s.dead_letters in
    (take limit (drop ((page - 1) * limit) letters), length letters)
