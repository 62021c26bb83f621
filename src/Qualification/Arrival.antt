-- ===== src/Qualification/Arrival.antt =====
-- A message that ingest of backend/src/modules/Ingestion/ingestion.service.ts queues for
-- qualification has a contact that is stored.
use bravi_ai.Ingestion.Paths.{find_contact-some}
use bravi_ai.Contact.Resolve.{resolve, see_contact, normalize_identifier, has_channel}
use bravi_ai.Store.{contact_by, open_for}
use bravi_ai.Ingestion.Ingest.{
  IngestMessage, append_to_existing, reopen_closed, queue_for_qualification, route, inbound_message,
  after_closed, known, latest_updated, may_reopen, closed_for, days_between, ingest, is_redelivered,
}
use bravi_ai.Exec.{Result, ok, ◌>>=◌}
use bravi_ai.Data.{Env, World, InboundMessage, QualificationStatus, Enquiry, Contact}
use bravi_ai.Prelude.{
  Option, ℕ, ◌≡◌, is_some, some, find_first, true, arith, Bool, subst, Bool-cases, find_many, inl,
  none, false, inr, refl, List, String, update_where, Option-cases, ap, ==_refl,
  find_first-update_where,
}

-- A message that waits has a contact, which is stored.
abbrev pub HasContact : Option ℕ → World → Type 0
HasContact contact_id t =
    (k : ℕ) × (contact_id ≡ some k) × (is_some (find_first (contact_by k) t.contacts) ≡ true)

abbrev pub Queued : ℕ → Result InboundMessage × World → Type 0
Queued id r =
    (raw : InboundMessage)
    → r.0 ≡ ok raw
    → raw.status ≡ QualificationStatus.pending
    → (raw.id ≡ id) × HasContact raw.contact_id r.1

module _ (env : Env) (dto : IngestMessage) (k : ℕ) (s : World)
    (here : is_some (find_first (contact_by k) s.contacts) ≡ true) where
  append-Queued : (e : Enquiry) → Queued env.row_id (append_to_existing env dto k e s)
  unfolding append_to_existing
  append-Queued e raw h p = ground arith

  reopen-Queued : (e : Enquiry) (days : ℕ) → Queued env.row_id (reopen_closed env dto k e days s)
  unfolding reopen_closed
  reopen-Queued e days raw h p = ground arith

  queue-Queued : Queued env.row_id (queue_for_qualification env dto k s)
  unfolding queue_for_qualification
  queue-Queued raw h p = elim (Bool-cases (is_redelivered dto.channel dto.external_id s.inbox)) [
    | inl d ↦ absurd (ground (arith, d, h))
    | inr d ↦
        let same : inbound_message env dto QualificationStatus.pending k ≡ raw =
          ground (arith, d, h) in
        rw d (
          subst (λ m. (m.id ≡ env.row_id) × HasContact m.contact_id s) same (refl, (k, refl, here)))
  ]

  closed-Queued : (q : Option Enquiry) → Queued env.row_id (after_closed env dto k q s)
  closed-Queued none = queue-Queued
  closed-Queued (some e) = elim (Bool-cases (may_reopen env.now e)) [
    | inl t ↦ rw t (reopen-Queued e (days_between e.updated_at env.now))
    | inr t ↦ rw t queue-Queued
  ]

  known-Queued : (q : Option Enquiry) → Queued env.row_id (known env dto k q s)
  known-Queued (some e) = append-Queued e
  known-Queued none = closed-Queued (latest_updated (find_many (closed_for k) s.enquiries))

  route-Queued : (is_new : Bool) → Queued env.row_id (route env dto k is_new s)
  unfolding route
  route-Queued true = queue-Queued
  route-Queued false = known-Queued (latest_updated (find_many (open_for k) s.enquiries))

is_some-see :
    (now k i : ℕ) (cs : List Contact)
    → is_some (find_first (contact_by i) cs) ≡ true
    → is_some (
        find_first
          (contact_by i)
          (update_where (contact_by k) (λ c. record c { last_seen_at = now }) cs))
      ≡ true
is_some-see now k i cs h = elim (Option-cases (find_first (contact_by i) cs)) [
  | inl e ↦ absurd (cc (h, ap is_some e))
  | inr (c, e) ↦
      rw
        (
          find_first-update_where (contact_by k) (contact_by i)
              (λ c. record c { last_seen_at = now }) (λ a. refl) cs,
          e,
        )
        refl
]

after_resolve-Queued :
    (env : Env) (dto : IngestMessage) (t : String) (q : Contact → Bool) (o : Option Contact)
    (s : World)
    → find_first q s.contacts ≡ o
    → Queued env.row_id
        ((see_contact env dto.channel t dto.display_name o >>= λ r. route env dto r.0 r.1) s)
unfolding find_first
after_resolve-Queued env dto t q none s h =
    route-Queued env dto env.row_id _ (rw (==_refl env.row_id) refl) true
after_resolve-Queued env dto t q (some c) s h =
    let (b, p) = find_contact-some q s.contacts c h in
    route-Queued env dto c.id _ (is_some-see env.now c.id c.id s.contacts (rw p refl)) false

pub ingest-Queued :
    (env : Env) (dto : IngestMessage) (s : World) → Queued env.row_id (ingest env dto s)
unfolding ingest resolve
ingest-Queued env dto s =
    after_resolve-Queued env dto (normalize_identifier dto.channel dto.from)
      (λ (c : Contact).
        has_channel dto.channel (normalize_identifier dto.channel dto.from) c.channels)
      (find_first
        (λ (c : Contact).
          has_channel dto.channel (normalize_identifier dto.channel dto.from) c.channels)
        s.contacts)
      s refl
