-- ===== src/Automation/Once.antt =====
-- How often backend/src/modules/automation/ai-reply.processor.ts replies.
use bravi_ai.Automation.Reply.{
  AiAnswer, is_outbound, thread, some_outbound, reply_target, process_reply,
}
use bravi_ai.Enquiry.Reply.{add_ai_reply, store_outbound}
use bravi_ai.Prelude.{
  ℕ, true, ◌||◌, Option, List, [], ◌∷◌, ◌++◌, ◌≡◌, refl, ◌⊎◌, inl, inr, arith, ◌==◌, find_many,
  reverse, sort_desc, insert_desc,
}
use bravi_ai.Data.{Message, World, Env}
use bravi_ai.Exec.{ok}

some_outbound-append :
    (ms : List Message) (m : Message)
    → some_outbound (ms ++ (m ∷ [])) ≡ (some_outbound ms || is_outbound m)
unfolding some_outbound
some_outbound-append [] m = ground arith
some_outbound-append (x ∷ ms) m = ground (arith, some_outbound-append ms m)

some_outbound-reverse : (ms : List Message) → some_outbound (reverse ms) ≡ some_outbound ms
unfolding some_outbound reverse
some_outbound-reverse [] = refl
some_outbound-reverse (m ∷ ms) =
    ground (arith, some_outbound-append (reverse ms) m, some_outbound-reverse ms)

some_outbound-insert_desc :
    (key : Message → ℕ) (m : Message) (ms : List Message)
    → some_outbound (insert_desc key m ms) ≡ (is_outbound m || some_outbound ms)
unfolding some_outbound insert_desc
some_outbound-insert_desc key m [] = ground arith
some_outbound-insert_desc key m (x ∷ ms) = ground (arith, some_outbound-insert_desc key m ms)

some_outbound-sort_desc :
    (key : Message → ℕ) (ms : List Message) → some_outbound (sort_desc key ms) ≡ some_outbound ms
unfolding some_outbound sort_desc
some_outbound-sort_desc key [] = refl
some_outbound-sort_desc key (m ∷ ms) =
    ground
      (arith, some_outbound-insert_desc key m (sort_desc key ms), some_outbound-sort_desc key ms)

-- A reply in the table is seen in the thread.
some_outbound-thread :
    (id : ℕ) (m : Message) (ms : List Message) (s : World)
    → s.messages ≡ m ∷ ms
    → (m.enquiry_id == id) ≡ true
    → is_outbound m ≡ true
    → some_outbound (thread id s) ≡ true
unfolding thread find_many some_outbound
some_outbound-thread id m ms s e i o =
    let rows = find_many (λ (x : Message). x.enquiry_id == id) s.messages in
    ground (
      arith,
      e,
      i,
      o,
      some_outbound-reverse (sort_desc (λ (x : Message). x.created_at) rows),
      some_outbound-sort_desc (λ (x : Message). x.created_at) rows,
    )

reply-cases :
    (env : Env) (threshold : ℕ) (ai : Option AiAnswer) (id : ℕ) (s : World)
    → let after = (process_reply env threshold ai id s).1 in
      (after ≡ s)
      ⊎ ((m : Message) × (after.messages ≡ m ∷ s.messages)
          × ((m.enquiry_id == id) ≡ true)
          × (is_outbound m ≡ true))
unfolding process_reply add_ai_reply store_outbound
reply-cases env threshold ai id s = ground arith

replied_before :
    (env : Env) (threshold : ℕ) (ai : Option AiAnswer) (id : ℕ) (s : World)
    → some_outbound (thread id s) ≡ true
    → process_reply env threshold ai id s ≡ (ok tt, s)
unfolding process_reply reply_target
replied_before env threshold ai id s h = ground (arith, h)

-- The AI replies once at most: an attempt of the job, whatever the service answers, leaves the world as it
-- was, or afterwards every further attempt for that enquiry, whatever the service answers then,
-- returns and leaves the world as it finds it.
pub process_reply_once :
    (env later : Env) (threshold limit : ℕ) (ai other : Option AiAnswer) (id : ℕ) (s : World)
    → let after = (process_reply env threshold ai id s).1 in
      (after ≡ s) ⊎ (process_reply later limit other id after ≡ (ok tt, after))
process_reply_once env later threshold limit ai other id s =
    elim (reply-cases env threshold ai id s) [
      | inl e ↦ inl e
      | inr w ↦ inr (
          replied_before later limit other id _
            (some_outbound-thread id w.0 s.messages _ w.1 w.2 w.3))
    ]
