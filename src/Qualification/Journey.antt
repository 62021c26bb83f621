-- ===== src/Qualification/Journey.antt =====
-- The way of a customer's message through three services: ingest of
-- backend/src/modules/Ingestion/ingestion.service.ts, the queued qualify of
-- backend/src/modules/qualification/qualification.service.ts and the listener handleQualified of
-- backend/src/modules/enquiry/enquiry.service.ts.
use bravi_ai.Qualification.Worker.{
  on_events, on_event, new_events, handle-Says, process_message, waits_for_job,
}
use bravi_ai.Qualification.Arrival.{HasContact, ingest-Queued}
use bravi_ai.Enquiry.Unique.{UniqueIds}
use bravi_ai.Qualification.Settled.{lead_events, IsSettled, outcome, qualify-Settles}
use bravi_ai.Ingestion.Paths.{ingest_records, Refuses, Waits, Joins}
use bravi_ai.Qualification.Qualify.{
  inbound_by, AiClassification, qualify, final_status, set_status, classify,
}
use bravi_ai.Enquiry.Qualified.{handle_qualified}
use bravi_ai.Store.{contact_by}
use bravi_ai.Ingestion.Ingest.{IngestMessage, ingest, is_redelivered}
use bravi_ai.Exec.{ok, Exec, ◌>>=◌, pure, ◌>>◌, Exception}
use bravi_ai.Data.{
  Env, World, InboundMessage, QualificationStatus, Event, enquiry_qualified, Message,
  MessageDirection,
}
use bravi_ai.Prelude.{
  Option, ℕ, ◌≡◌, is_some, some, find_first, true, arith, Bool, subst, Bool-cases, inl, none, false,
  inr, refl, List, Option-cases, ap, ==_refl, ◌∷◌, ◌-◌, length, suc, if◌then◌else◌, leb, ◌⊎◌, ◌&&◌,
  ◌∙◌,
}

-- A message from its arrival to the end of its qualification, if it is queued for one.
pub journey :
    (arrival later : Env)
    → (threshold : ℕ) → Option AiClassification
    → Option Exception
    → IngestMessage
    → Exec InboundMessage
unfolding ingest qualify handle_qualified
journey arrival later threshold answer refused dto = do
  raw ← ingest arrival dto
  if waits_for_job raw.status
      then process_message later threshold answer refused raw.id
      else pure tt
  pure raw

length_diff : (n : ℕ) → (n - n ≡ 0) × (suc n - n ≡ 1)
length_diff n = (omega arith, omega arith)

abbrev is_lead_status : QualificationStatus → Bool
is_lead_status QualificationStatus.real_enquiry = true
is_lead_status _ = false

delivered :
    (env : Env) (m : InboundMessage) (a : AiClassification) (status : QualificationStatus)
    (events : List Event) (t : World)
    → on_events env (new_events events (lead_events m a status events)) t ≡ (
        if is_lead_status status
        then on_event env (enquiry_qualified m.id m.contact_id a.intent a.urgency a.priority) t
        else (ok tt, t))
delivered env m a QualificationStatus.real_enquiry events t =
    rw ((length_diff (length events)).1) refl
delivered env m a QualificationStatus.spam events t = rw ((length_diff (length events)).0) refl
delivered env m a QualificationStatus.needs_review events t =
    rw ((length_diff (length events)).0) refl
delivered env m a QualificationStatus.pending events t = rw ((length_diff (length events)).0) refl
delivered env m a QualificationStatus.processing events t =
    rw ((length_diff (length events)).0) refl
delivered env m a QualificationStatus.reviewed_approved events t =
    rw ((length_diff (length events)).0) refl
delivered env m a QualificationStatus.reviewed_rejected events t =
    rw ((length_diff (length events)).0) refl

-- The AI service is confident that the message is no lead.
abbrev pub NoLead : Option AiClassification → Type 0
NoLead answer =
    (a : AiClassification) × (answer ≡ some a) × (a.is_lead ≡ false) × (leb 70 a.confidence ≡ true)

outcome-cases :
    (threshold : ℕ) (answer : Option AiClassification) (refused : Option Exception)
    → let status = outcome threshold answer refused in
      (status ≡ QualificationStatus.real_enquiry)
      ⊎ ((status ≡ QualificationStatus.spam) × NoLead answer)
      ⊎ (status ≡ QualificationStatus.needs_review)
unfolding final_status
outcome-cases threshold answer (some x) = inr (inr refl)
outcome-cases threshold none none = inr (inr refl)
outcome-cases threshold (some a) none = elim (final_cases (Bool-cases a.is_lead)) [
  | inl p ↦ inl p
  | inr (inl (p, l, c)) ↦ inr (inl (p, (a, refl, l, c)))
  | inr (inr p) ↦ inr (inr p)
]
  where
    final_cases :
        (a.is_lead ≡ true) ⊎ (a.is_lead ≡ false)
        → (final_status threshold a ≡ QualificationStatus.real_enquiry)
          ⊎ ((final_status threshold a ≡ QualificationStatus.spam)
              × (a.is_lead ≡ false)
              × (leb 70 a.confidence ≡ true))
          ⊎ (final_status threshold a ≡ QualificationStatus.needs_review)
    final_cases (inl p) = ground (arith, p)
    final_cases (inr p) = ground (arith, p)

-- Where a message is after its qualification: in the conversation of its contact, under manual
-- review, or marked as spam by a confident answer.
abbrev pub Kept : InboundMessage → Option AiClassification → List Message → World → Type 0
Kept raw answer messages u =
    ((m : Message) × (u.messages ≡ m ∷ messages)
      × (m.direction ≡ MessageDirection.inbound)
      × (m.content ≡ raw.body)
      × (some m.contact_id ≡ raw.contact_id))
    ⊎ IsSettled raw QualificationStatus.needs_review u
    ⊎ (IsSettled raw QualificationStatus.spam u × NoLead answer)

module _ (env : Env) (raw : InboundMessage) (a : AiClassification)
    (answer : Option AiClassification) (u : World) (messages : List Message)
    (d : u.messages ≡ messages) where
  finish-Kept :
      (status : QualificationStatus)
      → IsSettled raw status u
      → HasContact raw.contact_id u
      → (status ≡ QualificationStatus.real_enquiry)
        ⊎ ((status ≡ QualificationStatus.spam) × NoLead answer)
        ⊎ (status ≡ QualificationStatus.needs_review)
      → let r =
          if is_lead_status status
          then on_event env
              (enquiry_qualified raw.id raw.contact_id a.intent a.urgency a.priority)
              u
          else (ok tt, u) in
        (r.0 ≡ ok tt) × Kept raw answer messages r.1
  finish-Kept status b f (inr (inl (p, n))) =
      rw p (refl, inr (inr (subst (λ x. IsSettled raw x u) p b, n)))
  finish-Kept status b f (inr (inr p)) = rw p (refl, inr (inl (subst (λ x. IsSettled raw x u) p b)))
  finish-Kept status b (k, e, g) (inl p) =
      elim (Option-cases (find_first (contact_by k) u.contacts)) [
        | inl h ↦ absurd (cc (g, ap is_some h))
        | inr (c, h) ↦
            let (x, (m, y, z, v, w)) =
              handle-Says env u k (set_status status raw) c h
                (record {
                  inbound_message_id = raw.id;
                  contact_id = raw.contact_id;
                  intent = some a.intent;
                  urgency = some a.urgency;
                  priority = some a.priority;
                })
                e b.0 in
            rw p (x, inl (m, y ∙ ap (λ ms. m ∷ ms) d, z, v, cc (w, e)))
      ]

process-Kept :
    (env : Env) (threshold : ℕ) (answer : Option AiClassification) (refused : Option Exception)
    (raw : InboundMessage) (t : World) (messages : List Message)
    → t.messages ≡ messages
    → find_first (inbound_by raw.id) t.inbox ≡ some raw
    → raw.status ≡ QualificationStatus.pending
    → HasContact raw.contact_id t
    → let r = process_message env threshold answer refused raw.id t in
      (r.0 ≡ ok tt) × Kept raw answer messages r.1
process-Kept env threshold answer refused raw t messages n here p (k, e, g) =
    let (a, b, c, d, f, same) =
      qualify-Settles raw t threshold answer refused here (rw p (and_no _)) in
    let u = (qualify threshold answer refused raw.id t).1 in
    let done =
      finish-Kept env raw (classify answer) answer u messages (d ∙ n)
        (outcome threshold answer refused) b (k, e, same k ∙ g)
        (outcome-cases threshold answer refused) in
    rw (a, c, delivered env raw (classify answer) (outcome threshold answer refused) t.events u)
      done
  where
    and_no : (x : Bool) → (x && false) ≡ false
    and_no true = refl
    and_no false = refl

accepted-Kept :
    (arrival later : Env) (threshold : ℕ) (answer : Option AiClassification)
    (refused : Option Exception) (dto : IngestMessage) (s : World) (raw : InboundMessage)
    → let t = (ingest arrival dto s).1 in
      ((ingest arrival dto s).0 ≡ ok raw)
      → (t.inbox ≡ raw ∷ s.inbox)
      → (raw.body ≡ dto.body)
      → (Waits s t raw ⊎ Joins dto s t raw)
      → let r = journey arrival later threshold answer refused dto s in
        (r.0 ≡ ok raw) × Kept raw answer s.messages r.1
unfolding journey find_first
accepted-Kept arrival later threshold answer refused dto s raw a b c (inl (p, q, m, e)) =
    let (here, contact) = ingest-Queued arrival dto s raw a p in
    let (x, y) =
      process-Kept later threshold answer refused raw (ingest arrival dto s).1 s.messages m
        (rw (b, ==_refl raw.id) refl) p contact in
    rw a (simp (p, x) (refl, y))
accepted-Kept arrival later threshold answer refused dto s raw a b c (inr (p, q, (m, d, f, g, h))) =
    rw a (simp p (refl, inl (m, d, f, rw c g, h)))

-- The end-to-end promise, that no message is lost: whatever the AI service answers and whether or
-- not the database refuses the result, a message that arrives at a state whose enquiry identifiers
-- are distinct is refused only if a stored message has its channel and external identifier, and then
-- changes no stored message, conversation, enquiry or queue. The journey of any other message
-- returns, and ends in a state where the message, with its text, is in the conversation of its
-- contact, under manual review, or marked as spam, the last only if the service answered with a
-- confidence of at least 70 that it is no lead.
pub journey-Kept :
    (arrival later : Env) (threshold : ℕ) (answer : Option AiClassification)
    (refused : Option Exception) (dto : IngestMessage) (s : World)
    → UniqueIds s.enquiries
    → let r = journey arrival later threshold answer refused dto s in
      ((is_redelivered dto.channel dto.external_id s.inbox ≡ true) × Refuses s r)
      ⊎ ((is_redelivered dto.channel dto.external_id s.inbox ≡ false)
          × ((raw : InboundMessage) × (r.0 ≡ ok raw)
              × (raw.body ≡ dto.body)
              × Kept raw answer s.messages r.1))
unfolding journey
journey-Kept arrival later threshold answer refused dto s u =
    elim (ingest_records arrival dto s u) [
      | inl (n, (p, a, b, c, d)) ↦ rw p (inl (n, (refl, a, b, c, d)))
      | inr (n, (raw, a, b, c, d)) ↦
          let (p, q) = accepted-Kept arrival later threshold answer refused dto s raw a b c d in
          inr (n, (raw, p, c, q))
    ]
