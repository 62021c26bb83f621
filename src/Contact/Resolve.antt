-- ===== src/Contact/Resolve.antt =====
-- resolve and normalizeIdentifier of backend/src/modules/contact/contact.service.ts. The channels of
-- a contact stand in its row; (channel, identifier) is unique, so findUnique of a channel finds the
-- contact that has it. Calls run one at a time, so the retry on P2002 is not reached.
use bravi_ai.Prelude.{
  ℕ, Bool, true, false, ◌&&◌, ◌||◌, String, Option, none, some, List, [], ◌∷◌, str_eq, find_first,
  update_where,
}
use bravi_ai.Data.{Contact, ContactChannel, MessageChannel, Env, same_channel}
use bravi_ai.Exec.{Exec, pure, reads, writes, ◌>>=◌, ◌>>◌}
use bravi_ai.Store.{contact_by, or_text}
use bravi_ai.Text.{trim, to_lower_case}

unfoldable pub normalize_identifier : MessageChannel → String → String
normalize_identifier MessageChannel.email t = to_lower_case (trim t)
normalize_identifier MessageChannel.whatsapp t = trim t
normalize_identifier MessageChannel.sms t = trim t

unfoldable pub has_channel : MessageChannel → String → List ContactChannel → Bool
has_channel channel t [] = false
has_channel channel t (c ∷ cs) =
    same_channel c.channel channel && str_eq c.identifier t || has_channel channel t cs

abbrev pub new_contact : Env → MessageChannel → String → Option String → Contact
new_contact env channel t display_name = record {
  id = env.row_id;
  display_name = or_text display_name t;
  organization = none;
  notes = none;
  channels = record { id = env.row_id; channel = channel; identifier = t; is_primary = true } ∷ [];
  last_message_seq = 0;
  last_read_seq = 0;
  last_seen_at = env.now;
}

abbrev pub see_contact :
    Env → MessageChannel → String → Option String → Option Contact → Exec (ℕ × Bool)
see_contact env channel t display_name none = do
  writes λ s. record s { contacts = new_contact env channel t display_name ∷ s.contacts }
  pure (env.row_id, true)
see_contact env channel t display_name (some c) = do
  writes λ s. record s {
    contacts = update_where (contact_by c.id) (λ c. record c { last_seen_at = env.now }) s.contacts;
  }
  pure (c.id, false)

-- Returns the contact's identifier, and whether the contact is new.
unfoldable pub resolve : Env → MessageChannel → String → Option String → Exec (ℕ × Bool)
unfolding normalize_identifier has_channel
resolve env channel identifier display_name = do
  let t = normalize_identifier channel identifier
  existing ← reads λ s. find_first (λ (c : Contact). has_channel channel t c.channels) s.contacts
  see_contact env channel t display_name existing
