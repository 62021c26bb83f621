-- ===== src/Contact/Edit.antt =====
-- createContact and updateContact of backend/src/modules/contact/contact.service.ts.
use bravi_ai.Contact.Resolve.{normalize_identifier, has_channel}
use bravi_ai.Prelude.{
  ℕ, Bool, true, String, Option, none, some, [], ◌∷◌, is_some, or_else, find_first, update_where,
}
use bravi_ai.Data.{Contact, MessageChannel, Env}
use bravi_ai.Exec.{Exec, pure, reads, writes, found, throw_if, ◌>>=◌, ◌>>◌, not_found, bad_request}
use bravi_ai.Store.{contact_by, find_contact}

-- contactChannel.findUnique on (channel, identifier): whether there is a row.
abbrev pub is_taken : MessageChannel → String → Exec Bool
is_taken channel t =
    reads λ s. is_some (find_first (λ (c : Contact). has_channel channel t c.channels) s.contacts)

-- CreateContactDto
pub record CreateContact : Type 0 where
  pub display_name : String
  pub organization : Option String
  pub notes : Option String
  pub channel : MessageChannel
  pub identifier : String

abbrev pub contact_of : Env → CreateContact → String → Contact
contact_of env dto t = record {
  id = env.row_id;
  display_name = dto.display_name;
  organization = dto.organization;
  notes = dto.notes;
  channels =
      record { id = env.row_id; channel = dto.channel; identifier = t; is_primary = true } ∷ [];
  last_message_seq = 0;
  last_read_seq = 0;
  last_seen_at = env.now;
}

unfoldable pub create_contact : Env → CreateContact → Exec Contact
unfolding normalize_identifier has_channel
create_contact env dto = do
  let t = normalize_identifier dto.channel dto.identifier
  taken ← is_taken dto.channel t
  throw_if taken bad_request
  writes λ s. record s { contacts = contact_of env dto t ∷ s.contacts }
  pure (contact_of env dto t)

-- UpdateContactDto
pub record UpdateContact : Type 0 where
  pub display_name : Option String
  pub organization : Option String
  pub notes : Option String

abbrev pub given : Option String → Option String → Option String
given none old = old
given (some t) old = some t

abbrev pub edit_contact : UpdateContact → Contact → Contact
edit_contact dto c = record c {
  display_name = or_else dto.display_name c.display_name;
  organization = given dto.organization c.organization;
  notes = given dto.notes c.notes;
}

abbrev pub put_contact : ℕ → (Contact → Contact) → Exec (Unit {0})
put_contact id f = writes λ s. record s { contacts = update_where (contact_by id) f s.contacts }

unfoldable pub update_contact : ℕ → UpdateContact → Exec Contact
update_contact id dto = do
  row ← find_contact id
  c ← found row not_found
  put_contact id (edit_contact dto)
  pure (edit_contact dto c)
