-- ===== src/Ingestion/OneOpen.antt =====
-- ingest of backend/src/modules/Ingestion/ingestion.service.ts gives no contact a second open enquiry.
use bravi_ai.Exec.{◌>>=◌}
use bravi_ai.Ingestion.Routing.{queue-enquiries, append-cases, reopen-cases}
use bravi_ai.Store.{open_for, stamp, enquiry_by}
use bravi_ai.Enquiry.Unique.{UniqueIds, find_first-latest_updated}
use bravi_ai.Contact.Resolve.{resolve, normalize_identifier, see_contact, has_channel}
use bravi_ai.Ingestion.Ingest.{
  latest_updated, ingest, IngestMessage, status_on_reply, queue_for_qualification, newer, route,
  known, hear, append_to_existing, reopen_closed, after_closed, may_reopen, closed_for,
  days_between, reopen,
}
use bravi_ai.Data.{Env, Enquiry, World, Contact}
use bravi_ai.Enquiry.OpenCount.{open_here, open_count, OneOpen, count_update}
use bravi_ai.Prelude.{
  ℕ, ◌≡◌, Option, find_many, find_first, some, List, String, ◌≢◌, none, Bool, arith, ◌∷◌, true, ◌≤◌,
  ◌==◌, Bool-cases, sym, false, inl, ◌⊎◌, refl, inr, update_where, ==_iff, [], subst,
}

module _ (env : Env) (dto : IngestMessage) (k : ℕ) (s : World) (u : UniqueIds s.enquiries)
    (o : OneOpen s.enquiries) where
  hear-open : (e : Enquiry) (c : ℕ) → open_here c (stamp env.now (hear env.now) e) ≤ open_here c e
  unfolding status_on_reply
  hear-open e c = ground arith

  append-OneOpen :
      (e : Enquiry)
      → find_first (enquiry_by e.id) s.enquiries ≡ some e
      → OneOpen (append_to_existing env dto k e s).1.enquiries
  append-OneOpen e p c = elim (append-cases env dto k s e) [
    | inl q ↦ rw q (o c)
    | inr q ↦ rw q (
        omega (
          arith,
          count_update c e.id (stamp env.now (hear env.now)) s.enquiries e u p,
          hear-open e c,
          o c,
        ))
  ]

  reopen-OneOpen :
      (e : Enquiry) (days : ℕ)
      → find_first (enquiry_by e.id) s.enquiries ≡ some e
      → open_count e.contact_id s.enquiries ≡ 0
      → OneOpen (reopen_closed env dto k e days s).1.enquiries
  reopen-OneOpen e days p z c = elim (reopen-cases env dto k s e days) [
    | inl q ↦ rw q (o c)
    | inr q ↦ rw q (at_contact (Bool-cases (e.contact_id == c)))
  ]
    where
      at_contact :
          (e.contact_id == c ≡ true) ⊎ (e.contact_id == c ≡ false)
          → open_count c
              (update_where (enquiry_by e.id) (stamp env.now (reopen env.now)) s.enquiries)
            ≤ 1
      at_contact b =
          let moved = count_update c e.id (stamp env.now (reopen env.now)) s.enquiries e u p in
          elim b [
            | inl t ↦
                let z2 : open_count c s.enquiries ≡ 0 =
                  subst (λ i. open_count i s.enquiries ≡ 0) ((==_iff e.contact_id c).0 t) z in
                ground (arith, moved, z2)
            | inr t ↦ ground (arith, moved, t, o c)
          ]

  queue-OneOpen : OneOpen (queue_for_qualification env dto k s).1.enquiries
  queue-OneOpen = rw (queue-enquiries env dto k s) o

  closed-OneOpen :
      (q : Option Enquiry)
      → ((e : Enquiry)
          → q ≡ some e
          → (find_first (enquiry_by e.id) s.enquiries ≡ some e)
            × (open_count e.contact_id s.enquiries ≡ 0))
      → OneOpen (after_closed env dto k q s).1.enquiries
  closed-OneOpen none h = queue-OneOpen
  closed-OneOpen (some e) h = elim (Bool-cases (may_reopen env.now e)) [
    | inl t ↦
        let (p, z) = h e refl in rw t (reopen-OneOpen e (days_between e.updated_at env.now) p z)
    | inr t ↦ rw t queue-OneOpen
  ]

newer-some : (e : Enquiry) (o : Option Enquiry) → newer e o ≢ none
newer-some e none h = ground arith
newer-some e (some f) h = ground arith

-- The query of ingest finds no open enquiry of a contact only if there is none.
count-latest_updated :
    (c : ℕ) (es : List Enquiry)
    → latest_updated (find_many (open_for c) es) ≡ none
    → open_count c es ≡ 0
unfolding latest_updated find_many open_count
count-latest_updated c [] h = refl
count-latest_updated c (e ∷ es) h = elim (Bool-cases (open_for c e)) [
  | inl t ↦ absurd (newer-some e (latest_updated (find_many (open_for c) es)) (rw t at h))
  | inr t ↦ ground (arith, t, count-latest_updated c es (rw t at h))
]

module _ (env : Env) (dto : IngestMessage) (k : ℕ) (s : World) (u : UniqueIds s.enquiries)
    (o : OneOpen s.enquiries) where
  known-OneOpen :
      (q : Option Enquiry)
      → q ≡ latest_updated (find_many (open_for k) s.enquiries)
      → OneOpen (known env dto k q s).1.enquiries
  known-OneOpen (some e) h =
      append-OneOpen env dto k s u o e
        (find_first-latest_updated (open_for k) s.enquiries e u (sym h)).0
  known-OneOpen none h =
      closed-OneOpen env dto k s u o (latest_updated (find_many (closed_for k) s.enquiries)) closed
    where
      closed :
          (e : Enquiry)
          → latest_updated (find_many (closed_for k) s.enquiries) ≡ some e
          → (find_first (enquiry_by e.id) s.enquiries ≡ some e)
            × (open_count e.contact_id s.enquiries ≡ 0)
      closed e p =
          let (q, b) = find_first-latest_updated (closed_for k) s.enquiries e u p in
          let same : e.contact_id ≡ k = ground (arith, b, ==_iff e.contact_id k) in
          (q, rw same (count-latest_updated k s.enquiries (sym h)))

  route-OneOpen : (is_new : Bool) → OneOpen (route env dto k is_new s).1.enquiries
  unfolding route
  route-OneOpen true = queue-OneOpen env dto k s u o
  route-OneOpen false = known-OneOpen (latest_updated (find_many (open_for k) s.enquiries)) refl

after_resolve-OneOpen :
    (env : Env) (dto : IngestMessage) (t : String) (o : Option Contact) (s : World)
    → UniqueIds s.enquiries
    → OneOpen s.enquiries
    → OneOpen
        ((see_contact env dto.channel t dto.display_name o >>= λ r. route env dto r.0 r.1)
          s).1.enquiries
after_resolve-OneOpen env dto t none s u h = route-OneOpen env dto env.row_id _ u h true
after_resolve-OneOpen env dto t (some c) s u h = route-OneOpen env dto c.id _ u h false

pub ingest-OneOpen :
    (env : Env) (dto : IngestMessage) (s : World)
    → UniqueIds s.enquiries
    → OneOpen s.enquiries
    → OneOpen (ingest env dto s).1.enquiries
unfolding ingest resolve
ingest-OneOpen env dto s u h =
    after_resolve-OneOpen env dto (normalize_identifier dto.channel dto.from)
      (find_first
        (λ (k : Contact).
          has_channel dto.channel (normalize_identifier dto.channel dto.from) k.channels)
        s.contacts)
      s u h
