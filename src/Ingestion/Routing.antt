-- ===== src/Ingestion/Routing.antt =====
-- Where ingest of backend/src/modules/Ingestion/ingestion.service.ts puts a message, and what it does
-- to the enquiry table.
use bravi_ai.Exec.{◌>>=◌}
use bravi_ai.Store.{enquiry_by, stamp, open_for}
use bravi_ai.Enquiry.Lifecycle.{Change, Follows, kept, edited}
use bravi_ai.Enquiry.Unique.{UniqueIds, find_first-latest_updated}
use bravi_ai.Enquiry.Status.{includes, transitions}
use bravi_ai.Prelude.{
  ℕ, String, Option, ◌≡◌, find_first, Bool, ◌⊎◌, refl, some, update_where, inl, arith, inr,
  Bool-cases, find_many, true, none,
}
use bravi_ai.Contact.Resolve.{resolve, normalize_identifier, see_contact, has_channel}
use bravi_ai.Data.{Env, World, Enquiry, EnquiryStatus, Contact}
use bravi_ai.Prelude.{false}
use bravi_ai.Ingestion.Ingest.{
  ingest, IngestMessage, append_to_existing, status_on_reply, reopen_closed,
  queue_for_qualification, route, known, hear, after_closed, latest_updated, reopen, may_reopen,
  closed_for, days_between,
}

module _ (env : Env) (dto : IngestMessage) (c : ℕ) (s : World) where
  pub append-cases :
      (e : Enquiry)
      → ((append_to_existing env dto c e s).1.enquiries ≡ s.enquiries)
        ⊎ ((append_to_existing env dto c e s).1.enquiries
            ≡ update_where (enquiry_by e.id) (stamp env.now (hear env.now)) s.enquiries)
  unfolding append_to_existing
  append-cases e = ground arith

  hear-Follows : (e : Enquiry) → Follows e (stamp env.now (hear env.now) e)
  unfolding status_on_reply includes transitions
  hear-Follows e = ground arith

  append-Change :
      (e : Enquiry)
      → find_first (enquiry_by e.id) s.enquiries ≡ some e
      → Change env.row_id s.enquiries (append_to_existing env dto c e s).1.enquiries
  append-Change e p = elim (append-cases e) [
    | inl q ↦ kept q
    | inr q ↦ edited env.now e.id (hear env.now) e p (λ a. refl) (hear-Follows e) q
  ]

  pub reopen-cases :
      (e : Enquiry) (days : ℕ)
      → ((reopen_closed env dto c e days s).1.enquiries ≡ s.enquiries)
        ⊎ ((reopen_closed env dto c e days s).1.enquiries
            ≡ update_where (enquiry_by e.id) (stamp env.now (reopen env.now)) s.enquiries)
  unfolding reopen_closed
  reopen-cases e days = ground arith

  reopen-Follows :
      (e : Enquiry)
      → e.status ≡ EnquiryStatus.closed_lost
      → Follows e (stamp env.now (reopen env.now) e)
  unfolding includes transitions
  reopen-Follows e h = ground arith

  reopen-Change :
      (e : Enquiry) (days : ℕ)
      → find_first (enquiry_by e.id) s.enquiries ≡ some e
      → e.status ≡ EnquiryStatus.closed_lost
      → Change env.row_id s.enquiries (reopen_closed env dto c e days s).1.enquiries
  reopen-Change e days p h = elim (reopen-cases e days) [
    | inl q ↦ kept q
    | inr q ↦ edited env.now e.id (reopen env.now) e p (λ a. refl) (reopen-Follows e h) q
  ]

  pub queue-enquiries : (queue_for_qualification env dto c s).1.enquiries ≡ s.enquiries
  unfolding queue_for_qualification
  queue-enquiries = ground arith

  closed-Change :
      (o : Option Enquiry)
      → ((e : Enquiry) → o ≡ some e → find_first (enquiry_by e.id) s.enquiries ≡ some e)
      → Change env.row_id s.enquiries (after_closed env dto c o s).1.enquiries
  closed-Change none h = kept queue-enquiries
  closed-Change (some e) h = elim (Bool-cases (may_reopen env.now e)) [
    | inl t ↦ rw t (reopen-Change e (days_between e.updated_at env.now) (h e refl) (ground arith))
    | inr t ↦ rw t (kept queue-enquiries)
  ]

  known-Change :
      (o : Option Enquiry)
      → UniqueIds s.enquiries
      → ((e : Enquiry) → o ≡ some e → find_first (enquiry_by e.id) s.enquiries ≡ some e)
      → Change env.row_id s.enquiries (known env dto c o s).1.enquiries
  known-Change (some e) u h = append-Change e (h e refl)
  known-Change none u h =
      closed-Change (latest_updated (find_many (closed_for c) s.enquiries))
        (λ e p. (find_first-latest_updated (closed_for c) s.enquiries e u p).0)

  route-Change :
      (is_new : Bool)
      → UniqueIds s.enquiries
      → Change env.row_id s.enquiries (route env dto c is_new s).1.enquiries
  unfolding route
  route-Change true u = kept queue-enquiries
  route-Change false u =
      known-Change (latest_updated (find_many (open_for c) s.enquiries)) u
        (λ e p. (find_first-latest_updated (open_for c) s.enquiries e u p).0)

after_resolve-Change :
    (env : Env) (dto : IngestMessage) (t : String) (o : Option Contact) (s : World)
    → UniqueIds s.enquiries
    → Change env.row_id s.enquiries
        ((see_contact env dto.channel t dto.display_name o >>= λ r. route env dto r.0 r.1)
          s).1.enquiries
after_resolve-Change env dto t none s u = route-Change env dto env.row_id _ true u
after_resolve-Change env dto t (some c) s u = route-Change env dto c.id _ false u

-- Whatever path a message takes, the enquiry table makes one lifecycle change.
pub ingest-Change :
    (env : Env) (dto : IngestMessage) (s : World)
    → UniqueIds s.enquiries
    → Change env.row_id s.enquiries (ingest env dto s).1.enquiries
unfolding ingest resolve
ingest-Change env dto s u =
    after_resolve-Change env dto (normalize_identifier dto.channel dto.from)
      (find_first
        (λ (k : Contact).
          has_channel dto.channel (normalize_identifier dto.channel dto.from) k.channels)
        s.contacts)
      s u
