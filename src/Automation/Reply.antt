-- ===== src/Automation/Reply.antt =====
-- process of backend/src/modules/automation/ai-reply.processor.ts. The answer of the AI service is an
-- argument; its confidence and the threshold are in thousandths.
use bravi_ai.Enquiry.Reply.{add_ai_reply}
use bravi_ai.Prelude.{
  ℕ, Bool, true, false, not, ◌||◌, String, Option, none, some, List, [], ◌∷◌, ◌==◌, ltb, str_eq,
  if◌then◌else◌, find_first, find_many, reverse, sort_desc,
}
use bravi_ai.Data.{Enquiry, Message, MessageChannel, MessageDirection, World, Env}
use bravi_ai.Exec.{Exec, pure, reads, ◌>>=◌}
use bravi_ai.Store.{find_enquiry, is_open, truthy}

pub record AiAnswer : Type 0 where
  pub action : String
  pub reply : Option String
  pub confidence : ℕ
  pub subject : Option String

abbrev pub is_outbound_direction : MessageDirection → Bool
is_outbound_direction MessageDirection.outbound = true
is_outbound_direction MessageDirection.inbound = false

abbrev pub is_outbound : Message → Bool
is_outbound m = is_outbound_direction m.direction

abbrev pub is_inbound : Message → Bool
is_inbound m = not (is_outbound m)

-- include: { messages: { orderBy: { createdAt: 'asc' } } }
unfoldable pub thread : ℕ → World → List Message
thread id s = reverse (
    sort_desc (λ (m : Message). m.created_at)
      (find_many (λ (m : Message). m.enquiry_id == id) s.messages))

unfoldable pub some_outbound : List Message → Bool
some_outbound [] = false
some_outbound (m ∷ ms) = is_outbound m || some_outbound ms

-- The message to reply to: the first inbound one of an open enquiry without an outbound one.
unfoldable pub reply_target : ℕ → Option Enquiry → World → Option Message
unfolding thread some_outbound
reply_target id none s = none
reply_target id (some e) s =
    if not (is_open e.status)
    then none
    else if some_outbound (thread id s)
    then none
    else find_first is_inbound (thread id s)

abbrev pub email_subject : MessageChannel → Option String → Option String
email_subject MessageChannel.email subject = subject
email_subject _ subject = none

abbrev pub reply_with :
    Env → ℕ → (threshold : ℕ) → AiAnswer → Message → Option String → Exec (Unit {0})
reply_with env id threshold ai m none = pure tt
reply_with env id threshold ai m (some body) =
    if str_eq ai.action "escalate" || ltb ai.confidence threshold then pure tt else (do
      sent ← add_ai_reply env id m.channel m.from body (email_subject m.channel ai.subject)
      pure tt)

abbrev pub reply_to : Env → ℕ → (threshold : ℕ) → Option AiAnswer → Option Message → Exec (Unit {0})
reply_to env id threshold ai none = pure tt
reply_to env id threshold none (some m) = pure tt
reply_to env id threshold (some ai) (some m) = reply_with env id threshold ai m (truthy ai.reply)

unfoldable pub process_reply : Env → (threshold : ℕ) → Option AiAnswer → ℕ → Exec (Unit {0})
unfolding reply_target
process_reply env threshold ai id = do
  row ← find_enquiry id
  target ← reads (reply_target id row)
  reply_to env id threshold ai target
