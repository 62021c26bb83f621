-- ===== src/Contact/Channels.antt =====
-- addChannel, removeChannel and setPrimaryChannel of backend/src/modules/contact/contact.service.ts.
-- The channels stand in their contact's row, the oldest first. A channel's identifier is unique, so
-- what the source does to the row of an identifier is an edit of the contact that has it.
use bravi_ai.Contact.Resolve.{normalize_identifier, has_channel}
use bravi_ai.Contact.Edit.{is_taken, put_contact}
use bravi_ai.Prelude.{
  ℕ, Bool, true, false, String, Option, none, some, List, [], ◌∷◌, ◌++◌, ◌==◌, leb, length, or_else,
  find_first, update_where, delete_where, if◌then◌else◌,
}
use bravi_ai.Data.{Contact, ContactChannel, MessageChannel, Env}
use bravi_ai.Exec.{
  Exec, pure, reads, found, throw_if, transaction, ◌>>=◌, ◌>>◌, not_found, bad_request,
  record_missing,
}
use bravi_ai.Store.{find_contact, contact_by}

-- AddChannelDto
pub record AddChannel : Type 0 where
  pub channel : MessageChannel
  pub identifier : String
  pub is_primary : Option Bool

abbrev pub on_channels : (List ContactChannel → List ContactChannel) → Contact → Contact
on_channels f c = record c { channels = f c.channels }

abbrev pub channel_row : Env → AddChannel → String → ContactChannel
channel_row env dto t = record {
  id = env.row_id;
  channel = dto.channel;
  identifier = t;
  is_primary = or_else dto.is_primary false;
}

unfoldable pub add_channel : Env → ℕ → AddChannel → Exec ContactChannel
unfolding normalize_identifier has_channel
add_channel env id dto = do
  row ← find_contact id
  c ← found row not_found
  let t = normalize_identifier dto.channel dto.identifier
  taken ← is_taken dto.channel t
  throw_if taken bad_request
  put_contact id (on_channels λ cs. cs ++ (channel_row env dto t ∷ []))
  pure (channel_row env dto t)

abbrev pub channels_of : Option Contact → List ContactChannel
channels_of none = []
channels_of (some c) = c.channels

-- findMany: { contactId }
abbrev pub find_channels : ℕ → Exec (List ContactChannel)
find_channels id = reads λ s. channels_of (find_first (contact_by id) s.contacts)

abbrev pub channel_by : ℕ → ContactChannel → Bool
channel_by id c = c.id == id

abbrev pub set_primary : Bool → ContactChannel → ContactChannel
set_primary b c = record c { is_primary = b }

abbrev pub first_channel : List ContactChannel → Option ContactChannel
first_channel [] = none
first_channel (c ∷ cs) = some c

-- The primary role goes to the oldest channel that remains. Were there none, the source would fail on
-- `undefined`.
abbrev pub pass_on_primary : ℕ → List ContactChannel → ContactChannel → Exec (Unit {0})
pass_on_primary id remaining lost =
    if lost.is_primary
    then (do
      heir ← found (first_channel remaining) record_missing
      put_contact id (on_channels (update_where (channel_by heir.id) (set_primary true))))
    else pure tt

unfoldable pub remove_channel : (contact_id channel_id : ℕ) → Exec (Unit {0})
remove_channel id channel_id = do
  channels ← find_channels id
  throw_if (leb (length channels) 1) bad_request
  lost ← found (find_first (channel_by channel_id) channels) not_found
  transaction do
    put_contact id (on_channels (delete_where (channel_by channel_id)))
    pass_on_primary id (delete_where (channel_by channel_id) channels) lost

abbrev pub make_primary : ℕ → List ContactChannel → List ContactChannel
make_primary channel_id cs =
    update_where (channel_by channel_id) (set_primary true)
      (update_where (λ (c : ContactChannel). c.is_primary) (set_primary false) cs)

unfoldable pub set_primary_channel : (contact_id channel_id : ℕ) → Exec (Unit {0})
set_primary_channel id channel_id = do
  channels ← find_channels id
  c ← found (find_first (channel_by channel_id) channels) not_found
  put_contact id (on_channels (make_primary channel_id))
