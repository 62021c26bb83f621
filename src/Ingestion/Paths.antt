-- ===== src/Ingestion/Paths.antt =====
-- What ingest of backend/src/modules/Ingestion/ingestion.service.ts records of an inbound message on
-- each of its paths.
use bravi_ai.Enquiry.Unique.{UniqueIds, find_first-latest_updated}
use bravi_ai.Store.{open_for, contact_by, enquiry_by}
use bravi_ai.Contact.Resolve.{resolve, normalize_identifier, see_contact, has_channel}
use bravi_ai.Exec.{Result, ok, ◌>>=◌, err, not_unique}
use bravi_ai.Ingestion.Ingest.{
  IngestMessage, ingest, append_to_existing, reopen_closed, queue_for_qualification, route,
  after_closed, known, latest_updated, closed_for, may_reopen, days_between, is_redelivered,
}
use bravi_ai.Data.{
  World, Env, InboundMessage, QualificationStatus, Enquiry, Contact, Message, MessageDirection,
}
use bravi_ai.Prelude.{
  ℕ, ◌≡◌, Option, String, arith, Bool, ◌∷◌, find_first, ◌⊎◌, some, find_many, Bool-cases, true,
  none, false, inl, inr, refl, List, find_first-update_where, ◌==◌, find_first-IsTrue, [], ap,
  ==_refl,
}

-- The message waits for qualification, and nothing else is recorded of it.
abbrev pub Waits : World → World → InboundMessage → Type 0
Waits s t raw =
    (raw.status ≡ QualificationStatus.pending)
    × (t.qualification_queue ≡ raw.id ∷ s.qualification_queue)
    × (t.messages ≡ s.messages)
    × (t.enquiries ≡ s.enquiries)

-- The message joins the conversation of an enquiry under its contact.
abbrev pub Joins : IngestMessage → World → World → InboundMessage → Type 0
Joins dto s t raw =
    (raw.status ≡ QualificationStatus.real_enquiry)
    × (t.qualification_queue ≡ s.qualification_queue)
    × ((m : Message) × (t.messages ≡ m ∷ s.messages)
        × (m.direction ≡ MessageDirection.inbound)
        × (m.content ≡ dto.body)
        × (some m.contact_id ≡ raw.contact_id))

abbrev pub Records : IngestMessage → World → Result InboundMessage × World → Type 0
Records dto s r =
    (raw : InboundMessage)
    → r.0 ≡ ok raw
    → (r.1.inbox ≡ raw ∷ s.inbox) × (raw.body ≡ dto.body) × (Waits s r.1 raw ⊎ Joins dto s r.1 raw)

module _ (env : Env) (dto : IngestMessage) (k : ℕ) (s : World) where
  append-Records : (e : Enquiry) → Records dto s (append_to_existing env dto k e s)
  unfolding append_to_existing
  append-Records e raw h = ground arith

  reopen-Records : (e : Enquiry) (days : ℕ) → Records dto s (reopen_closed env dto k e days s)
  unfolding reopen_closed
  reopen-Records e days raw h = ground arith

  queue-Records : Records dto s (queue_for_qualification env dto k s)
  unfolding queue_for_qualification
  queue-Records raw h = ground arith

  closed-Records : (q : Option Enquiry) → Records dto s (after_closed env dto k q s)
  closed-Records none = queue-Records
  closed-Records (some e) = elim (Bool-cases (may_reopen env.now e)) [
    | inl t ↦ rw t (reopen-Records e (days_between e.updated_at env.now))
    | inr t ↦ rw t queue-Records
  ]

  known-Records : (q : Option Enquiry) → Records dto s (known env dto k q s)
  known-Records (some e) = append-Records e
  known-Records none = closed-Records (latest_updated (find_many (closed_for k) s.enquiries))

  route-Records : (is_new : Bool) → Records dto s (route env dto k is_new s)
  unfolding route
  route-Records true = queue-Records
  route-Records false = known-Records (latest_updated (find_many (open_for k) s.enquiries))

after_resolve-Records :
    (env : Env) (dto : IngestMessage) (t : String) (o : Option Contact) (s : World)
    → Records dto s
        ((see_contact env dto.channel t dto.display_name o >>= λ r. route env dto r.0 r.1) s)
after_resolve-Records env dto t none s = route-Records env dto env.row_id _ true
after_resolve-Records env dto t (some c) s = route-Records env dto c.id _ false

abbrev is_ok : Result InboundMessage → Bool
is_ok (ok raw) = true
is_ok (err e) = false

-- The database refuses the message as one that it has, and nothing is recorded of it.
abbrev pub Refuses : World → Result InboundMessage × World → Type 0
Refuses s r =
    (r.0 ≡ err not_unique)
    × (r.1.inbox ≡ s.inbox)
    × (r.1.qualification_queue ≡ s.qualification_queue)
    × (r.1.messages ≡ s.messages)
    × (r.1.enquiries ≡ s.enquiries)

abbrev Answers : IngestMessage → World → Result InboundMessage × World → Type 0
Answers dto s r =
    ((is_redelivered dto.channel dto.external_id s.inbox ≡ true) × Refuses s r)
    ⊎ ((is_redelivered dto.channel dto.external_id s.inbox ≡ false) × (is_ok r.0 ≡ true))

module _ (env : Env) (dto : IngestMessage) (k : ℕ) (s : World) (u : UniqueIds s.enquiries)
    (c : Contact) (here : find_first (contact_by k) s.contacts ≡ some c) where
  append-Answers :
      (e : Enquiry)
      → find_first (enquiry_by e.id) s.enquiries ≡ some e
      → Answers dto s (append_to_existing env dto k e s)
  unfolding append_to_existing
  append-Answers e p = ground (arith, here)

  reopen-Answers :
      (e : Enquiry) (days : ℕ)
      → find_first (enquiry_by e.id) s.enquiries ≡ some e
      → Answers dto s (reopen_closed env dto k e days s)
  unfolding reopen_closed
  reopen-Answers e days p = ground (arith, here)

  queue-Answers : Answers dto s (queue_for_qualification env dto k s)
  unfolding queue_for_qualification
  queue-Answers = ground arith

  closed-Answers :
      (q : Option Enquiry)
      → ((e : Enquiry) → q ≡ some e → find_first (enquiry_by e.id) s.enquiries ≡ some e)
      → Answers dto s (after_closed env dto k q s)
  closed-Answers none h = queue-Answers
  closed-Answers (some e) h = elim (Bool-cases (may_reopen env.now e)) [
    | inl t ↦ rw t (reopen-Answers e (days_between e.updated_at env.now) (h e refl))
    | inr t ↦ rw t queue-Answers
  ]

  known-Answers :
      (q : Option Enquiry)
      → ((e : Enquiry) → q ≡ some e → find_first (enquiry_by e.id) s.enquiries ≡ some e)
      → Answers dto s (known env dto k q s)
  known-Answers (some e) h = append-Answers e (h e refl)
  known-Answers none h =
      closed-Answers (latest_updated (find_many (closed_for k) s.enquiries))
        (λ e p. (find_first-latest_updated (closed_for k) s.enquiries e u p).0)

  route-Answers : Answers dto s (route env dto k false s)
  unfolding route
  route-Answers =
      known-Answers (latest_updated (find_many (open_for k) s.enquiries))
        (λ e p. (find_first-latest_updated (open_for k) s.enquiries e u p).0)

route_new-Answers :
    (env : Env) (dto : IngestMessage) (k : ℕ) (s : World) → Answers dto s (route env dto k true s)
unfolding route queue_for_qualification
route_new-Answers env dto k s = ground arith

-- A contact that a query finds has a row under its identifier.
pub find_contact-some :
    (q : Contact → Bool) (cs : List Contact) (c : Contact)
    → find_first q cs ≡ some c
    → (b : Contact) × (find_first (contact_by c.id) cs ≡ some b)
unfolding find_first
find_contact-some q [] c h = cc
find_contact-some q (a ∷ cs) c h = elim (Bool-cases (a.id == c.id)) [
  | inl t ↦ (a, rw t refl)
  | inr t ↦ rw t (find_contact-some q cs c (later (Bool-cases (q a)) t))
]
  where
    later : (q a ≡ true) ⊎ (q a ≡ false) → (a.id == c.id) ≡ false → find_first q cs ≡ some c
    later (inl k) t =
        let same : a ≡ c = ground (arith, k, h) in
        absurd (cc (ap (λ (x : Contact). x.id == c.id) same, ==_refl c.id, t))
    later (inr k) t = rw k at h

after_resolve-Answers :
    (env : Env) (dto : IngestMessage) (t : String) (q : Contact → Bool) (o : Option Contact)
    (s : World)
    → find_first q s.contacts ≡ o
    → UniqueIds s.enquiries
    → Answers dto s
        ((see_contact env dto.channel t dto.display_name o >>= λ r. route env dto r.0 r.1) s)
after_resolve-Answers env dto t q none s h u = route_new-Answers env dto env.row_id _
after_resolve-Answers env dto t q (some c) s h u =
    let (b, p) = find_contact-some q s.contacts c h in
    route-Answers env dto c.id _ u (record b { last_seen_at = env.now })
      (rw
        (
          find_first-update_where (contact_by c.id) (contact_by c.id)
              (λ a. record a { last_seen_at = env.now }) (λ a. refl) s.contacts,
          p,
          find_first-IsTrue (contact_by c.id) s.contacts b p,
        )
        refl)

ingest-Answers :
    (env : Env) (dto : IngestMessage) (s : World)
    → UniqueIds s.enquiries
    → Answers dto s (ingest env dto s)
unfolding ingest resolve
ingest-Answers env dto s u =
    after_resolve-Answers env dto (normalize_identifier dto.channel dto.from)
      (λ (c : Contact).
        has_channel dto.channel (normalize_identifier dto.channel dto.from) c.channels)
      (find_first
        (λ (c : Contact).
          has_channel dto.channel (normalize_identifier dto.channel dto.from) c.channels)
        s.contacts)
      s refl u

ingest-Records : (env : Env) (dto : IngestMessage) (s : World) → Records dto s (ingest env dto s)
unfolding ingest resolve
ingest-Records env dto s =
    after_resolve-Records env dto (normalize_identifier dto.channel dto.from)
      (find_first
        (λ (c : Contact).
          has_channel dto.channel (normalize_identifier dto.channel dto.from) c.channels)
        s.contacts)
      s

result_of : (r : Result InboundMessage) → is_ok r ≡ true → (raw : InboundMessage) × (r ≡ ok raw)
result_of (ok raw) h = (raw, refl)
result_of (err e) h = cc

-- If the identifiers of the enquiry table are distinct, a message whose channel and external
-- identifier a stored message has is refused, and adds nothing to the stored messages, the
-- qualification queue, the conversations or the enquiries. Ingestion returns any other message as
-- it is stored, and either queues it for qualification, with the conversations and the enquiries as
-- they were, or puts its text into the contact's conversation, with no qualification queued.
pub ingest_records :
    (env : Env) (dto : IngestMessage) (s : World)
    → UniqueIds s.enquiries
    → let r = ingest env dto s in
      ((is_redelivered dto.channel dto.external_id s.inbox ≡ true) × Refuses s r)
      ⊎ ((is_redelivered dto.channel dto.external_id s.inbox ≡ false)
          × ((raw : InboundMessage) × (r.0 ≡ ok raw)
              × (r.1.inbox ≡ raw ∷ s.inbox)
              × (raw.body ≡ dto.body)
              × (Waits s r.1 raw ⊎ Joins dto s r.1 raw)))
ingest_records env dto s u = elim (ingest-Answers env dto s u) [
  | inl h ↦ inl h
  | inr (n, o) ↦
      let (raw, h) = result_of (ingest env dto s).0 o in
      let (a, b, c) = ingest-Records env dto s raw h in inr (n, (raw, h, a, b, c))
]
