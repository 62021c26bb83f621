-- ===== src/Contact/Delete.antt =====
-- deleteContact and deleteContacts of backend/src/modules/contact/contact.service.ts, with the rows that
-- the relations to Contact in backend/prisma/schema.prisma take along or set to null.
use bravi_ai.Enquiry.Notes.{cascade, member}
use bravi_ai.Prelude.{
  ℕ, Bool, Option, none, some, List, [], ◌∷◌, map, ◌&&◌, ltb, length, find_many, update_where,
  delete_where, false,
}
use bravi_ai.Data.{Contact, Enquiry, Message, MessageAttachment, InboundMessage, World}
use bravi_ai.Exec.{Exec, pure, reads, writes, found, throw_if, ◌>>=◌, ◌>>◌, not_found, bad_request}
use bravi_ai.Store.{find_contact, is_open}

abbrev pub open_count : List ℕ → World → ℕ
open_count ids s =
    length (find_many (λ (e : Enquiry). member ids e.contact_id && is_open e.status) s.enquiries)

-- enquiry.deleteMany
abbrev pub delete_enquiries : List ℕ → World → World
delete_enquiries ids s =
    cascade
      (member (
        map (λ (e : Enquiry). e.id)
          (find_many (λ (e : Enquiry). member ids e.contact_id) s.enquiries)))
      s

abbrev pub is_from : List ℕ → Option ℕ → Bool
is_from ids none = false
is_from ids (some id) = member ids id

-- contact.deleteMany: the messages of the thread go, the raw ones lose their contact.
abbrev pub delete_rows : List ℕ → World → World
delete_rows ids s =
    let lost =
      map (λ (m : Message). m.id)
        (find_many (λ (m : Message). member ids m.contact_id) s.messages) in
    record s {
      contacts = delete_where (λ (c : Contact). member ids c.id) s.contacts;
      messages = delete_where (λ (m : Message). member ids m.contact_id) s.messages;
      message_attachments =
          delete_where (λ (a : MessageAttachment). member lost a.message_id) s.message_attachments;
      inbox =
          update_where (λ (m : InboundMessage). is_from ids m.contact_id)
            (λ m. record m { contact_id = none }) s.inbox;
    }

unfoldable pub delete_contact : ℕ → Exec (Unit {0})
unfolding member
delete_contact id = do
  row ← find_contact id
  c ← found row not_found
  count ← reads (open_count (id ∷ []))
  throw_if (ltb 0 count) bad_request
  writes λ s. delete_rows (id ∷ []) (delete_enquiries (id ∷ []) s)

unfoldable pub delete_contacts : List ℕ → Exec ℕ
unfolding member
delete_contacts ids = do
  count ← reads (open_count ids)
  throw_if (ltb 0 count) bad_request
  removed ← reads λ s. length (find_many (λ (c : Contact). member ids c.id) s.contacts)
  writes λ s. delete_rows ids (delete_enquiries ids s)
  pure removed
