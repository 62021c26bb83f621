-- ===== src/Inbox/Numbers.antt =====
-- Every call of the enquiry and ingestion services against the numbering of messages.
mod Steps
use Steps.{
  Numbers, same-Numbers, Adds-Numbers, create-Adds, status_change-same, send_message-Adds,
  assign-same, update_tags-same, add_outbound_message-Adds, add_ai_reply-Adds,
  maybe_transition_on_outbound-same, add_note-same, handle_qualified-Adds, remove-Numbers,
  bulk_delete-Numbers, route-Numbers,
}
use bravi_ai.Contact.Resolve.{see_contact, resolve, normalize_identifier, new_contact, has_channel}
use bravi_ai.Inbox.Command.{
  step, Command, create_enquiry, change_status, assign_to, set_tags, send, send_outbound, send_ai,
  outbound_done, write_note, qualify, delete_one, delete_many, receive,
}
use mathlib.Core.Option
use bravi_ai.Exec.{◌>>=◌}
use bravi_ai.Ingestion.Ingest.{IngestMessage, route, ingest}
use bravi_ai.Enquiry.Qualified.{handle_qualified}
use bravi_ai.Enquiry.Notes.{add_note}
use bravi_ai.Store.{contact_by}
use bravi_ai.Prelude.{
  ℕ, ◌≡◌, inl, Option, String, inr, arith, find_first, update_where, ◌∷◌, true, refl, some,
  Bool-cases, ◌==◌, none, ◌≤◌, subst, false, ==_iff, edit, find_first-update_where,
}
use bravi_ai.Enquiry.Reply.{
  send_message, add_outbound_message, add_ai_reply, maybe_transition_on_outbound,
}
use bravi_ai.Enquiry.Manage.{status_change, assign, update_tags}
use bravi_ai.Enquiry.Create.{create}
use bravi_ai.Data.{World, Env, MessageChannel, Contact}
use bravi_ai.Inbox.Sequence.{quiet, watermark, IsNumbered, Numbering-IsNumbered, watermark_of}

abbrev pub IsNumberedWorld : World → Type 0
IsNumberedWorld s = IsNumbered s.contacts s.messages

-- A new contact, under a fresh identifier, and a contact that is seen again lower no watermark.
see_contact-quiet :
    (env : Env) (channel : MessageChannel) (t : String) (name : Option String) (o : Option Contact)
    (s : World)
    → find_first (contact_by env.row_id) s.contacts ≡ none
    → Numbers s (see_contact env channel t name o s).1
see_contact-quiet env channel t name none s h = quiet (λ c. grow c) refl
  where
    grow :
        (c : ℕ) → watermark c s.contacts ≤ watermark c (new_contact env channel t name ∷ s.contacts)
    grow c = elim (Bool-cases (env.row_id == c)) [
      | inl p ↦
          rw
            (subst (λ d. find_first (contact_by d) s.contacts ≡ none) ((==_iff env.row_id c).0 p) h)
            (omega arith)
      | inr p ↦ unfold find_first in rw p (omega arith)
    ]
see_contact-quiet env channel t name (some k) s h = quiet (λ c. same c) refl
  where
    same :
        (c : ℕ)
        → watermark c s.contacts
          ≤ watermark c
              (update_where (contact_by k.id) (λ c. record c { last_seen_at = env.now }) s.contacts)
    same c =
        rw
          (find_first-update_where (contact_by k.id) (contact_by c)
            (λ c. record c { last_seen_at = env.now }) (λ a. refl) s.contacts)
          (keep (find_first (contact_by c) s.contacts))
      where
        keep :
            (o : Option Contact)
            → watermark_of o
              ≤ watermark_of
                  (Option.map (edit (contact_by k.id) (λ c. record c { last_seen_at = env.now })) o)
        keep none = omega arith
        keep (some a) = ground arith

after_resolve-IsNumbered :
    (env : Env) (dto : IngestMessage) (t : String) (o : Option Contact) (s : World)
    → find_first (contact_by env.row_id) s.contacts ≡ none
    → IsNumberedWorld s
    → IsNumberedWorld
        ((see_contact env dto.channel t dto.display_name o >>= λ r. route env dto r.0 r.1) s).1
after_resolve-IsNumbered env dto t none s h n =
    let v = see_contact-quiet env dto.channel t dto.display_name none s h in
    Numbering-IsNumbered
      (route-Numbers env (see_contact env dto.channel t dto.display_name none s).1 dto env.row_id
        true)
      (Numbering-IsNumbered v n)
after_resolve-IsNumbered env dto t (some c) s h n =
    let v = see_contact-quiet env dto.channel t dto.display_name (some c) s h in
    Numbering-IsNumbered
      (route-Numbers env (see_contact env dto.channel t dto.display_name (some c) s).1 dto c.id
        false)
      (Numbering-IsNumbered v n)

ingest-IsNumbered :
    (env : Env) (dto : IngestMessage) (s : World)
    → find_first (contact_by env.row_id) s.contacts ≡ none
    → IsNumberedWorld s
    → IsNumberedWorld (ingest env dto s).1
unfolding ingest resolve
ingest-IsNumbered env dto s h n =
    after_resolve-IsNumbered env dto (normalize_identifier dto.channel dto.from)
      (find_first
        (λ (k : Contact).
          has_channel dto.channel (normalize_identifier dto.channel dto.from) k.channels)
        s.contacts)
      s h n

-- Every call keeps the numbers of each contact's messages strictly rising in the order of creation
-- and at most Contact.lastMessageSeq, if the identifier of a new contact is fresh.
pub step-IsNumbered :
    (env : Env) (c : Command) (s : World)
    → find_first (contact_by env.row_id) s.contacts ≡ none
    → IsNumbered s.contacts s.messages
    → IsNumbered (step env c s).contacts (step env c s).messages
unfolding step
step-IsNumbered env (create_enquiry dto u) s h n =
    Numbering-IsNumbered (Adds-Numbers s (create env dto u s).1 (create-Adds env s dto u)) n
step-IsNumbered env (change_status id dto u) s h n =
    Numbering-IsNumbered
      (same-Numbers s (status_change env id dto u s).1 (status_change-same env s id dto u)) n
step-IsNumbered env (assign_to id user version) s h n =
    Numbering-IsNumbered
      (same-Numbers s (assign env id user version s).1 (assign-same env s id user version)) n
step-IsNumbered env (set_tags id tags u) s h n =
    Numbering-IsNumbered
      (same-Numbers s (update_tags env id tags u s).1 (update_tags-same env s id tags u)) n
step-IsNumbered env (send id content channel user) s h n =
    Numbering-IsNumbered
      (Adds-Numbers s (send_message env id content channel user s).1
        (send_message-Adds env s id content channel user))
      n
step-IsNumbered env (send_outbound id channel to subject body user draft) s h n =
    Numbering-IsNumbered
      (Adds-Numbers s (add_outbound_message env id channel to subject body user draft s).1
        (add_outbound_message-Adds env s id channel to subject body user draft))
      n
step-IsNumbered env (send_ai id channel to body subject) s h n =
    Numbering-IsNumbered
      (Adds-Numbers s (add_ai_reply env id channel to body subject s).1
        (add_ai_reply-Adds env s id channel to body subject))
      n
step-IsNumbered env (outbound_done id) s h n =
    Numbering-IsNumbered
      (same-Numbers s (maybe_transition_on_outbound env id s).1
        (maybe_transition_on_outbound-same env s id))
      n
step-IsNumbered env (write_note id content user) s h n =
    Numbering-IsNumbered
      (same-Numbers s (add_note env id content user s).1 (add_note-same env s id content user)) n
step-IsNumbered env (qualify q) s h n =
    Numbering-IsNumbered
      (Adds-Numbers s (handle_qualified env q s).1 (handle_qualified-Adds env s q)) n
step-IsNumbered env (delete_one id) s h n = Numbering-IsNumbered (remove-Numbers env s id) n
step-IsNumbered env (delete_many ids) s h n = Numbering-IsNumbered (bulk_delete-Numbers env s ids) n
step-IsNumbered env (receive dto) s h n = ingest-IsNumbered env dto s h n
