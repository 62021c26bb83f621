-- ===== src/Qualification/Writes.antt =====
-- The writes of qualify of backend/src/modules/qualification/qualification.service.ts, one at a time.
use bravi_ai.Store.{contact_by}
use bravi_ai.Exec.{ok}
use bravi_ai.Qualification.Qualify.{
  result_by, inbound_by, find_result, update_status, upsert_result, set_status, rename_contact,
  set_name,
}
use bravi_ai.Data.{QualificationStatus, QualificationResult, World, InboundMessage, Contact}
use bravi_ai.Prelude.{
  ℕ, List, find_first, ◌≡◌, true, some, update_where, Option-cases, find_first-update_where, inl,
  find_first-IsTrue, inr, refl, Option, String, none, is_some, edit,
}
use mathlib.Core.Option

module _ (id : ℕ) where
  pub find-update_status :
      (status : QualificationStatus) (rows : List InboundMessage) (m : InboundMessage)
      → find_first (inbound_by id) rows ≡ some m
      → find_first (inbound_by id) (update_where (inbound_by id) (set_status status) rows)
        ≡ some (set_status status m)
  find-update_status status rows m h =
      rw
        (
          find_first-update_where (inbound_by id) (inbound_by id) (set_status status) (λ a. refl)
              rows,
          h,
          find_first-IsTrue (inbound_by id) rows m h,
        )
        refl

  pub update_status-ok :
      (status : QualificationStatus) (s : World) (m : InboundMessage)
      → find_first (inbound_by id) s.inbox ≡ some m
      → update_status id status s
        ≡ (ok tt, record s { inbox = update_where (inbound_by id) (set_status status) s.inbox })
  update_status-ok status s m h = rw h refl

  -- The result that an upsert leaves.
  pub upsert-found :
      (create : QualificationResult) (update : QualificationResult → QualificationResult)
      (status : QualificationStatus) (s : World)
      → result_by id create ≡ true
      → ((r : QualificationResult) → result_by id (update r) ≡ result_by id r)
      → create.final_status ≡ status
      → ((r : QualificationResult) → (update r).final_status ≡ status)
      → (r : QualificationResult) × (find_result id (upsert_result id create update s).1 ≡ some r)
        × (r.final_status ≡ status)
  unfolding find_first
  upsert-found create update status s a b c d = elim (Option-cases (find_result id s)) [
    | inl e ↦ rw e (create, rw a refl, c)
    | inr (r, e) ↦ rw e (
      update r,
      rw
          (
            find_first-update_where (result_by id) (result_by id) update b s.qualification_results,
            e,
            find_first-IsTrue (result_by id) s.qualification_results r e,
          )
          refl,
      d r,
    )
  ]

-- A table of contacts in which the same identifiers are found.
abbrev pub SameContacts : List Contact → List Contact → Type 0
SameContacts cs ds =
    (k : ℕ) → is_some (find_first (contact_by k) ds) ≡ is_some (find_first (contact_by k) cs)

pub rename_contact-ok :
    (name : Option String) (contact_id : Option ℕ) (s : World)
    → (cs : List Contact) × (rename_contact name contact_id s ≡ (ok tt, record s { contacts = cs }))
      × SameContacts s.contacts cs
rename_contact-ok none contact_id s = (s.contacts, refl, λ k. refl)
rename_contact-ok (some name) none s = (s.contacts, refl, λ k. refl)
rename_contact-ok (some name) (some id) s = (
  update_where (contact_by id) (set_name name) s.contacts,
  refl,
  λ k.
      rw
        (find_first-update_where (contact_by id) (contact_by k) (set_name name) (λ a. refl)
          s.contacts)
        (is_some-map (find_first (contact_by k) s.contacts)),
)
  where
    is_some-map :
        (o : Option Contact)
        → is_some (Option.map (edit (contact_by id) (set_name name)) o) ≡ is_some o
    is_some-map none = refl
    is_some-map (some c) = refl
