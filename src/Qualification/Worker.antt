-- ===== src/Qualification/Worker.antt =====
-- The worker of the qualification queue
-- (backend/src/modules/qualification/processors/qualification.processor.ts), and the listener
-- handleQualified of backend/src/modules/enquiry/enquiry.service.ts.
use bravi_ai.Qualification.Qualify.{inbound_by, AiClassification, qualify}
use bravi_ai.Enquiry.Qualified.{
  handle_qualified, Qualified, append_to, create_qualified, append_or_create, inbound_row,
}
use bravi_ai.Store.{contact_by, open_for}
use bravi_ai.Exec.{Result, ok, Exec, ◌>>=◌, pure, ◌>>◌, Exception, reads}
use bravi_ai.Data.{
  Env, World, InboundMessage, QualificationStatus, Enquiry, Event, Contact, enquiry_qualified,
  Message, MessageDirection,
}
use bravi_ai.Prelude.{
  Option, ℕ, ◌≡◌, some, find_first, true, Bool, none, false, refl, List, ◌∷◌, ◌+◌, take, ◌-◌,
  length, [],
}

-- @OnEvent('enquiry.qualified')
abbrev pub on_event : Env → Event → Exec (Unit {0})
on_event env (enquiry_qualified id contact_id intent urgency priority) =
    handle_qualified env (record {
      inbound_message_id = id;
      contact_id = contact_id;
      intent = some intent;
      urgency = some urgency;
      priority = some priority;
    })
on_event env _ = pure tt

-- The message's text joins the conversation of its contact.
abbrev pub Says : ℕ → InboundMessage → World → Result (Unit {0}) × World → Type 0
Says k i s r =
    (r.0 ≡ ok tt)
    × ((m : Message) × (r.1.messages ≡ m ∷ s.messages)
        × (m.direction ≡ MessageDirection.inbound)
        × (m.content ≡ i.body)
        × (m.contact_id ≡ k))

module _ (env : Env) (s : World) (k : ℕ) (i : InboundMessage) (c : Contact)
    (known_contact : find_first (contact_by k) s.contacts ≡ some c) where
  append_to-Says : (e : Enquiry) → Says k i s (append_to env k i e s)
  unfolding append_to
  append_to-Says e =
      rw known_contact
        (refl, (inbound_row env e.id k (c.last_message_seq + 1) i, refl, refl, refl, refl))

  create_qualified-Says : (q : Qualified) → Says k i s (create_qualified env k q i s)
  unfolding create_qualified
  create_qualified-Says q =
      rw known_contact
        (refl, (inbound_row env env.row_id k (c.last_message_seq + 1) i, refl, refl, refl, refl))

  pub handle-Says :
      (q : Qualified)
      → q.contact_id ≡ some k
      → find_first (inbound_by q.inbound_message_id) s.inbox ≡ some i
      → Says k i s (handle_qualified env q s)
  unfolding handle_qualified
  handle-Says q a b = rw (a, b) (placed (find_first (open_for k) s.enquiries))
    where
      placed : (o : Option Enquiry) → Says k i s (append_or_create env k q i o s)
      placed none = create_qualified-Says q
      placed (some e) = append_to-Says e

-- The events that were emitted since, the newest first.
abbrev pub new_events : List Event → List Event → List Event
new_events before now = take (length now - length before) now

abbrev pub on_events : Env → List Event → Exec (Unit {0})
on_events env [] = pure tt
on_events env (e ∷ es) = on_events env es >> on_event env e

-- process of the qualification queue's worker, and the listeners of what it emits
abbrev pub process_message :
    Env → ℕ → Option AiClassification → Option Exception → ℕ → Exec (Unit {0})
process_message env threshold answer refused id = do
  before ← reads λ s. s.events
  qualify threshold answer refused id
  after ← reads λ s. s.events
  on_events env (new_events before after)

abbrev pub waits_for_job : QualificationStatus → Bool
waits_for_job QualificationStatus.pending = true
waits_for_job _ = false
