-- ===== src/Enquiry/OneOpen.antt =====
-- The open enquiries of a contact: create and handleQualified of
-- backend/src/modules/enquiry/enquiry.service.ts look for one before they make another.
use bravi_ai.Enquiry.OpenCount.{
  OneOpen, open_count, open_here, added-OneOpen, count_delete, Edits-count,
}
use bravi_ai.Enquiry.Manage.{ChangeStatus, assign, give_to, update_tags, change, status_change}
use bravi_ai.Enquiry.Reply.{
  maybe_transition_on_outbound, await, send_message, add_outbound_message, add_ai_reply, respond,
  await_customer, stay,
}
use bravi_ai.Enquiry.Status.{includes, transitions}
use bravi_ai.Enquiry.Notes.{remove, bulk_delete, add_note, member}
use bravi_ai.Enquiry.Qualified.{handle_qualified, Qualified, qualified_enquiry}
use bravi_ai.Enquiry.Create.{create, CreateEnquiry, new_enquiry}
use bravi_ai.Enquiry.Changes.{
  Edits, remove-cases, bulk_delete-cases, add_note-Edits, assign-Edits, update_tags-Edits,
  status_change-Edits,
}
use bravi_ai.Enquiry.Changes.Replies.{
  maybe_transition_on_outbound-Edits, send_message-Edits, add_outbound_message-Edits,
  add_ai_reply-Edits,
}
use bravi_ai.Store.{enquiry_by, open_for, stamp}
use bravi_ai.Enquiry.Unique.{UniqueIds}
use bravi_ai.Prelude.{
  ℕ, List, ◌∷◌, ◌≡◌, ◌≤◌, arith, find_first, some, none, ◌==◌, inl, inr, String, ◌⊎◌, Option, ◌≢◌,
  true,
}
use bravi_ai.Data.{Enquiry, Env, World, MessageChannel, EnquiryStatus}

module _ (env : Env) (s : World) where
  create-adds :
      (dto : CreateEnquiry) (u : Option String)
      → ((create env dto u s).1.enquiries ≡ s.enquiries)
        ⊎ (((create env dto u s).1.enquiries ≡ new_enquiry env dto ∷ s.enquiries)
            × (find_first (open_for dto.contact_id) s.enquiries ≡ none))
  unfolding create
  create-adds dto u = ground arith

  pub create-OneOpen :
      (dto : CreateEnquiry) (u : Option String)
      → OneOpen s.enquiries
      → OneOpen (create env dto u s).1.enquiries
  create-OneOpen dto u o = elim (create-adds dto u) [
    | inl p ↦ rw p o
    | inr (p, h) ↦ rw p (added-OneOpen (new_enquiry env dto) s.enquiries h o)
  ]

  handle_qualified-adds :
      (q : Qualified)
      → ((handle_qualified env q s).1.enquiries ≡ s.enquiries)
        ⊎ ((c : ℕ) × ((handle_qualified env q s).1.enquiries
              ≡ qualified_enquiry env c q ∷ s.enquiries)
            × (find_first (open_for c) s.enquiries ≡ none))
  unfolding handle_qualified
  handle_qualified-adds q = ground arith

  pub handle_qualified-OneOpen :
      (q : Qualified) → OneOpen s.enquiries → OneOpen (handle_qualified env q s).1.enquiries
  handle_qualified-OneOpen q o = elim (handle_qualified-adds q) [
    | inl p ↦ rw p o
    | inr (c, p, h) ↦ rw p (added-OneOpen (qualified_enquiry env c q) s.enquiries h o)
  ]

  pub remove-count : (id c : ℕ) → open_count c (remove id s).1.enquiries ≤ open_count c s.enquiries
  remove-count id c = elim (remove-cases env id s) [
    | inl p ↦ rw p (omega arith)
    | inr p ↦ rw p (count_delete c (λ e. e.id == id) s.enquiries)
  ]

  pub bulk_delete-count :
      (ids : List ℕ) (c : ℕ)
      → open_count c (bulk_delete ids s).1.enquiries ≤ open_count c s.enquiries
  bulk_delete-count ids c = elim (bulk_delete-cases env s ids) [
    | inl p ↦ rw p (omega arith)
    | inr p ↦ rw p (count_delete c (λ e. member ids e.id) s.enquiries)
  ]

module _ (env : Env) (id : ℕ) (s : World) (u : UniqueIds s.enquiries) where
  pub assign-count :
      (user : String) (version c : ℕ)
      → open_count c (assign env id user version s).1.enquiries ≤ open_count c s.enquiries
  assign-count user version =
      Edits-count _ env.now id (give_to env.now user) u (λ e p c. ground arith)
        (assign-Edits env id s user version)

  pub update_tags-count :
      (tags : List String) (user : Option String) (c : ℕ)
      → open_count c (update_tags env id tags user s).1.enquiries ≤ open_count c s.enquiries
  update_tags-count tags user =
      Edits-count _ env.now id (λ e. record e { tags = tags; last_activity_at = env.now }) u
        (λ e p c. omega arith) (update_tags-Edits env id s tags user)

  pub add_note-count :
      (content user : String) (c : ℕ)
      → open_count c (add_note env id content user s).1.enquiries ≤ open_count c s.enquiries
  add_note-count content user =
      Edits-count _ env.now id (λ e. record e { last_activity_at = env.now }) u
        (λ e p c. omega arith) (add_note-Edits env id s content user)

  pub send_message-count :
      (content : String) (chosen : Option MessageChannel) (user : String) (c : ℕ)
      → open_count c (send_message env id content chosen user s).1.enquiries
        ≤ open_count c s.enquiries
  send_message-count content chosen user =
      Edits-count _ env.now id (respond env.now await_customer) u (λ e p c. ground arith)
        (send_message-Edits env id s content chosen user)

  pub add_outbound_message-count :
      (channel : MessageChannel) (to : String) (subject : Option String) (body user : String)
      (draft : Option ℕ) (c : ℕ)
      → open_count c (add_outbound_message env id channel to subject body user draft s).1.enquiries
        ≤ open_count c s.enquiries
  add_outbound_message-count channel to subject body user draft =
      Edits-count _ env.now id (respond env.now stay) u (λ e p c. omega arith)
        (add_outbound_message-Edits env id s channel to subject body user draft)

  pub add_ai_reply-count :
      (channel : MessageChannel) (to body : String) (subject : Option String) (c : ℕ)
      → open_count c (add_ai_reply env id channel to body subject s).1.enquiries
        ≤ open_count c s.enquiries
  add_ai_reply-count channel to body subject =
      Edits-count _ env.now id (respond env.now stay) u (λ e p c. omega arith)
        (add_ai_reply-Edits env id s channel to body subject)

  await-open :
      (e : Enquiry)
      → includes EnquiryStatus.awaiting_customer (transitions e.status) ≡ true
      → (c : ℕ) → open_here c (stamp env.now (await env.now) e) ≤ open_here c e
  unfolding includes transitions
  await-open e p c = ground arith

  pub maybe_transition_on_outbound-count :
      (c : ℕ)
      → open_count c (maybe_transition_on_outbound env id s).1.enquiries ≤ open_count c s.enquiries
  maybe_transition_on_outbound-count =
      Edits-count _ env.now id (await env.now) u await-open
        (maybe_transition_on_outbound-Edits env id s)

  -- A status change other than the reopening of a CLOSED_LOST enquiry.
  status_change-cases :
      (dto : ChangeStatus) (user : Option String)
      → ((e : Enquiry)
          → find_first (enquiry_by id) s.enquiries ≡ some e
          → e.status ≢ EnquiryStatus.closed_lost)
      → Edits
          (λ e.
            (includes dto.status (transitions e.status) ≡ true)
            × (e.status ≢ EnquiryStatus.closed_lost))
          env.now
          id
          (change env.now dto)
          s.enquiries
          (status_change env id dto user s).1.enquiries
  status_change-cases dto user h = elim (status_change-Edits env id s dto user) [
    | inl p ↦ inl p
    | inr (e, p, q, r) ↦ inr (e, p, (q.0, h e p), r)
  ]

  change-open :
      (dto : ChangeStatus) (e : Enquiry)
      → (includes dto.status (transitions e.status) ≡ true) × (e.status ≢ EnquiryStatus.closed_lost)
      → (c : ℕ) → open_here c (stamp env.now (change env.now dto) e) ≤ open_here c e
  unfolding includes transitions
  change-open dto e p c = ground arith

  pub status_change-count :
      (dto : ChangeStatus) (user : Option String)
      → ((e : Enquiry)
          → find_first (enquiry_by id) s.enquiries ≡ some e
          → e.status ≢ EnquiryStatus.closed_lost)
      → (c : ℕ)
      → open_count c (status_change env id dto user s).1.enquiries ≤ open_count c s.enquiries
  status_change-count dto user h =
      Edits-count _ env.now id (change env.now dto) u (change-open dto)
        (status_change-cases dto user h)
