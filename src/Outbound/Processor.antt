-- ===== src/Outbound/Processor.antt =====
-- backend/src/modules/outbound/outbound.processor.ts. What the channel router answers is an argument.
use text.Mathlib.Text.{starts_with}
use bravi_ai.Enquiry.Reply.{maybe_transition_on_outbound}
use bravi_ai.Store.{keep_text, update_message, find_message}
use bravi_ai.Exec.{Exec, catches, pure, ◌>>◌, ◌>>=◌, emit, writes, throw, send_error}
use bravi_ai.Data.{
  Env, Message, Job, DeadLetter, DeliveryStatus, World, same_channel, same_delivery, MessageChannel,
  outbound_sent, outbound_failed,
}
use bravi_ai.Prelude.{
  ◌==◌, Option, ℕ, String, suc, Bool, zero, false, if◌then◌else◌, none, some, is_some, find_first,
  update_where, ◌∷◌, ◌||◌, or_else, ◌+◌, true,
}

-- SendResult of adapters/channel-adapter.interface.ts, or an exception with its message.
pub data Answer : Type 0 where
  sent_as : Option String → Answer
  refused : Option String → Answer
  raised : String → Answer

-- backoffStrategy, in milliseconds
unfoldable pub backoff : ℕ → ℕ
backoff (suc zero) = 1000
backoff (suc (suc zero)) = 4000
backoff _ = 16000

unfoldable pub includes_text : String → String → Bool
includes_text String.[] t = starts_with String.[] t
includes_text (String.◌∷◌ c s) t =
    let rest = includes_text s t in starts_with (String.◌∷◌ c s) t || rest

-- result.error?.includes('not configured')
abbrev pub is_permanent : Option String → Bool
is_permanent none = false
is_permanent (some t) = includes_text t "not configured"

abbrev pub accept_send : Option String → Message → Message
accept_send external m = record m {
  delivery_status = DeliveryStatus.sent;
  external_id = keep_text external m.external_id;
}

-- A failed transition is only logged.
abbrev pub try_transition : Env → ℕ → Exec (Unit {0})
try_transition env id = catches (maybe_transition_on_outbound env id) (pure tt)

unfoldable pub update_and_emit : Env → (message_id enquiry_id : ℕ) → Answer → ℕ → Exec (Unit {0})
unfolding includes_text
update_and_emit env id enquiry_id (sent_as external) attempts = do
  update_message id (accept_send external)
  emit (outbound_sent id enquiry_id env.now)
  try_transition env enquiry_id
update_and_emit env id enquiry_id (refused reason) attempts =
    if is_permanent reason
    then (do
      update_message id (λ m. record m { delivery_status = DeliveryStatus.failed })
      emit (outbound_failed id enquiry_id (or_else reason "") attempts))
    else throw send_error
update_and_emit env id enquiry_id (raised t) attempts = throw send_error

abbrev pub is_pending : Option Message → Bool
is_pending none = false
is_pending (some m) = same_delivery m.delivery_status DeliveryStatus.pending

abbrev pub update_if_pending : Env → Job → ℕ → Answer → Bool → Exec (Unit {0})
update_if_pending env j attempts_made answer true =
    update_and_emit env j.message_id j.enquiry_id answer (attempts_made + 1)
update_if_pending env j attempts_made answer false = pure tt

-- handleEmail and handleWhatsApp, which differ in the channel of the job alone.
unfoldable pub handle_job : Env → Job → (attempts_made : ℕ) → Answer → Exec (Unit {0})
handle_job env j attempts_made answer = do
  m ← find_message j.message_id
  update_if_pending env j attempts_made answer (is_pending m)

-- The queue gives the processor jobs of the two names; any other is passed over.
unfoldable pub process : Env → Job → ℕ → Answer → Exec (Unit {0})
unfolding handle_job update_and_emit
process env j attempts answer =
    if same_channel j.name MessageChannel.sms then pure tt else handle_job env j attempts answer

abbrev pub letter_of : ℕ → DeadLetter → Bool
letter_of id d = d.message_id == id

abbrev pub new_letter : Env → Job → String → ℕ → DeadLetter
new_letter env j reason attempts = record {
  id = env.row_id;
  message_id = j.message_id;
  job_name = j.name;
  last_error = reason;
  attempt_count = attempts;
  resolved_at = none;
  resolved_by = none;
}

abbrev pub renew_letter : String → ℕ → DeadLetter → DeadLetter
renew_letter reason attempts d = record d {
  last_error = reason;
  attempt_count = attempts;
  resolved_at = none;
  resolved_by = none;
}

-- outboundDeadLetter.upsert
abbrev pub upsert_letter : Env → Job → String → ℕ → World → World
upsert_letter env j reason attempts s = record s {
  dead_letters =
      if is_some (find_first (letter_of j.message_id) s.dead_letters)
      then update_where (letter_of j.message_id) (renew_letter reason attempts) s.dead_letters
      else new_letter env j reason attempts ∷ s.dead_letters;
}

-- onJobFailed; `attempts` is the job's attemptsMade. Its own failure is only logged.
unfoldable pub on_job_failed : Env → Job → (attempts : ℕ) → (reason : String) → Exec (Unit {0})
on_job_failed env j attempts reason =
    catches
      (do
        update_message j.message_id
            (λ m. record m { delivery_status = DeliveryStatus.failed; fail_reason = some reason })
        writes (upsert_letter env j reason attempts)
        emit (outbound_failed j.message_id j.enquiry_id reason attempts))
      (pure tt)
