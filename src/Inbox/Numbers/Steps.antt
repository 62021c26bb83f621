-- ===== src/Inbox/Numbers/Steps.antt =====
-- The message numbers that each method of the services adds.
use bravi_ai.Exec.{bind_result, found, not_found, writes}
use bravi_ai.Ingestion.Ingest.{
  append_to_existing, reopen_closed, queue_for_qualification, IngestMessage, route, after_closed,
  known, latest_updated, closed_for, may_reopen, days_between,
}
use bravi_ai.Enquiry.Qualified.{handle_qualified, Qualified}
use bravi_ai.Enquiry.Notes.{add_note, remove, bulk_delete, member, cascade}
use bravi_ai.Store.{contact_by, open_for, enquiry_by}
use bravi_ai.Prelude.{
  ℕ, ◌≡◌, inl, Option, String, ◌⊎◌, inr, arith, find_first, update_where, ◌+◌, ◌∷◌, is_some, true,
  List, refl, Bool, some, find_many, [], Bool-cases, ◌==◌, none, false,
}
use bravi_ai.Enquiry.Reply.{
  send_message, store_outbound, add_outbound_message, add_ai_reply, maybe_transition_on_outbound,
}
use bravi_ai.Enquiry.Manage.{status_change, ChangeStatus, assign, update_tags}
use bravi_ai.Enquiry.Create.{create, CreateEnquiry}
use bravi_ai.Data.{World, Env, MessageChannel, Message, Enquiry}
use bravi_ai.Inbox.Sequence.{Numbering, quiet, numbered, bump, watermark, fewer}

-- The contacts and messages of two worlds are the same, or differ by one numbered message.
abbrev pub Adds : World → World → Type 0
Adds s t =
    ((t.contacts ≡ s.contacts) × (t.messages ≡ s.messages))
    ⊎ ((m : Message) × (t.messages ≡ m ∷ s.messages)
        × (is_some (find_first (contact_by m.contact_id) s.contacts) ≡ true)
        × (t.contacts ≡ update_where (contact_by m.contact_id) bump s.contacts)
        × (m.seq ≡ watermark m.contact_id s.contacts + 1))

abbrev pub Numbers : World → World → Type 0
Numbers s t = Numbering s.contacts s.messages t.contacts t.messages

pub same-Numbers :
    (s t : World) → (t.contacts ≡ s.contacts) × (t.messages ≡ s.messages) → Numbers s t
same-Numbers s t p = quiet (λ c. rw p.0 (omega arith)) p.1

pub Adds-Numbers : (s t : World) → Adds s t → Numbers s t
Adds-Numbers s t (inl p) = same-Numbers s t p
Adds-Numbers s t (inr (m, x, p, q, w)) = numbered m p q w x

module _ (env : Env) (s : World) where
  pub create-Adds : (dto : CreateEnquiry) (u : Option String) → Adds s (create env dto u s).1
  unfolding create
  create-Adds dto u = ground arith

  pub status_change-same :
      (id : ℕ) (dto : ChangeStatus) (u : Option String)
      → ((status_change env id dto u s).1.contacts ≡ s.contacts)
        × ((status_change env id dto u s).1.messages ≡ s.messages)
  unfolding status_change
  status_change-same id dto u = ground arith

  pub send_message-Adds :
      (id : ℕ) (content : String) (chosen : Option MessageChannel) (user : String)
      → Adds s (send_message env id content chosen user s).1
  unfolding send_message store_outbound
  send_message-Adds id content chosen user = ground arith

  pub assign-same :
      (id : ℕ) (user : String) (version : ℕ)
      → ((assign env id user version s).1.contacts ≡ s.contacts)
        × ((assign env id user version s).1.messages ≡ s.messages)
  unfolding assign
  assign-same id user version = ground arith

  pub update_tags-same :
      (id : ℕ) (tags : List String) (u : Option String)
      → ((update_tags env id tags u s).1.contacts ≡ s.contacts)
        × ((update_tags env id tags u s).1.messages ≡ s.messages)
  unfolding update_tags
  update_tags-same id tags u = ground arith

  pub add_outbound_message-Adds :
      (id : ℕ) (channel : MessageChannel) (to : String) (subject : Option String)
      (body user : String) (draft : Option ℕ)
      → Adds s (add_outbound_message env id channel to subject body user draft s).1
  unfolding add_outbound_message store_outbound
  add_outbound_message-Adds id channel to subject body user draft = ground arith

  pub add_ai_reply-Adds :
      (id : ℕ) (channel : MessageChannel) (to body : String) (subject : Option String)
      → Adds s (add_ai_reply env id channel to body subject s).1
  unfolding add_ai_reply store_outbound
  add_ai_reply-Adds id channel to body subject = ground arith

  pub maybe_transition_on_outbound-same :
      (id : ℕ)
      → ((maybe_transition_on_outbound env id s).1.contacts ≡ s.contacts)
        × ((maybe_transition_on_outbound env id s).1.messages ≡ s.messages)
  unfolding maybe_transition_on_outbound
  maybe_transition_on_outbound-same id = ground arith

  pub add_note-same :
      (id : ℕ) (content user : String)
      → ((add_note env id content user s).1.contacts ≡ s.contacts)
        × ((add_note env id content user s).1.messages ≡ s.messages)
  unfolding add_note
  add_note-same id content user = ground arith

  pub handle_qualified-Adds : (q : Qualified) → Adds s (handle_qualified env q s).1
  unfolding handle_qualified
  handle_qualified-Adds q = ground arith

  pub remove-Numbers : (id : ℕ) → Numbers s (remove id s).1
  unfolding remove
  remove-Numbers id = by_row (find_first (enquiry_by id) s.enquiries)
    where
      by_row :
          (o : Option Enquiry)
          → Numbers s
              (bind_result
                (found o not_found s).0
                (λ e. writes (cascade (λ i. i == id)))
                (found o not_found s).1).1
      by_row none = same-Numbers s s (refl, refl)
      by_row (some e) = fewer (λ m. m.enquiry_id == id) refl refl

  pub bulk_delete-Numbers : (ids : List ℕ) → Numbers s (bulk_delete ids s).1
  unfolding bulk_delete
  bulk_delete-Numbers [] = same-Numbers s s (refl, refl)
  bulk_delete-Numbers (i ∷ ids) = fewer (λ m. member (i ∷ ids) m.enquiry_id) refl refl

  pub append_to_existing-Adds :
      (dto : IngestMessage) (c : ℕ) (e : Enquiry) → Adds s (append_to_existing env dto c e s).1
  unfolding append_to_existing
  append_to_existing-Adds dto c e = ground arith

  pub reopen_closed-Adds :
      (dto : IngestMessage) (c : ℕ) (e : Enquiry) (days : ℕ)
      → Adds s (reopen_closed env dto c e days s).1
  unfolding reopen_closed
  reopen_closed-Adds dto c e days = ground arith

  pub queue-same :
      (dto : IngestMessage) (c : ℕ)
      → ((queue_for_qualification env dto c s).1.contacts ≡ s.contacts)
        × ((queue_for_qualification env dto c s).1.messages ≡ s.messages)
  unfolding queue_for_qualification
  queue-same dto c = ground arith

  pub after_closed-Numbers :
      (dto : IngestMessage) (c : ℕ) (o : Option Enquiry) → Numbers s (after_closed env dto c o s).1
  after_closed-Numbers dto c none =
      same-Numbers s (queue_for_qualification env dto c s).1 (queue-same dto c)
  after_closed-Numbers dto c (some e) = elim (Bool-cases (may_reopen env.now e)) [
    | inl t ↦ rw t (
        Adds-Numbers s (reopen_closed env dto c e (days_between e.updated_at env.now) s).1
          (reopen_closed-Adds dto c e (days_between e.updated_at env.now)))
    | inr t ↦ rw t (same-Numbers s (queue_for_qualification env dto c s).1 (queue-same dto c))
  ]

  pub known-Numbers :
      (dto : IngestMessage) (c : ℕ) (o : Option Enquiry) → Numbers s (known env dto c o s).1
  known-Numbers dto c (some e) =
      Adds-Numbers s (append_to_existing env dto c e s).1 (append_to_existing-Adds dto c e)
  known-Numbers dto c none =
      after_closed-Numbers dto c (latest_updated (find_many (closed_for c) s.enquiries))

  pub route-Numbers :
      (dto : IngestMessage) (c : ℕ) (is_new : Bool) → Numbers s (route env dto c is_new s).1
  unfolding route
  route-Numbers dto c true =
      same-Numbers s (queue_for_qualification env dto c s).1 (queue-same dto c)
  route-Numbers dto c false =
      known-Numbers dto c (latest_updated (find_many (open_for c) s.enquiries))
