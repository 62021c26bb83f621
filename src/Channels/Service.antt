-- ===== src/Channels/Service.antt =====
-- backend/src/modules/channels/channels.service.ts. Whether the provider accepts the credentials that it
-- is asked about is an argument; the masked text that is shown is left out.
use bravi_ai.Store.{truthy}
use bravi_ai.Exec.{
  Exec, throw_if, ◌>>=◌, reads, writes, bad_request, ◌>>◌, found, conflict, not_found, not_unique,
  pure, record_missing, throw,
}
use bravi_ai.Prelude.{
  Bool, Option, ℕ, String, ◌==◌, or_else, is_some, not, if◌then◌else◌, none, some, ◌&&◌, find_first,
  str_eq, update_where, ◌||◌, delete_where, ◌∷◌,
}
use bravi_ai.Data.{
  ChannelProvider, Env, ChannelConnection, ChannelStatus, MessageChannel, same_provider,
  same_channel, World, StoredCredentials,
}

pub record CreateChannel : Type 0 where
  pub provider : ChannelProvider
  pub display_name : String
  pub api_key : Option String
  pub from_email : Option String
  pub verification_key : Option String
  pub phone_number_id : Option String
  pub access_token : Option String
  pub verify_token : Option String
  pub app_secret : Option String

unfoldable pub channel_for_provider : ChannelProvider → MessageChannel
channel_for_provider ChannelProvider.sendgrid_email = MessageChannel.email
channel_for_provider _ = MessageChannel.whatsapp

-- validateSendGridKey and validateMetaCredentials
abbrev pub validate : (accepted : Bool) → Exec (Unit {0})
validate accepted = throw_if (not accepted) bad_request

abbrev pub only_key : Option String → StoredCredentials
only_key api_key = record {
  api_key = api_key;
  verification_key = none;
  access_token = none;
  verify_token = none;
  app_secret = none;
}

-- The account and the credentials of the `switch`.
abbrev pub account_for :
    (accepted : Bool) → CreateChannel → ChannelProvider → Exec (String × StoredCredentials)
account_for accepted dto ChannelProvider.sendgrid_email = do
  key ← found (truthy dto.api_key) bad_request
  email ← found (truthy dto.from_email) bad_request
  validate accepted
  pure (email, record (only_key (some key)) { verification_key = dto.verification_key })
account_for accepted dto ChannelProvider.meta_whatsapp = do
  phone ← found (truthy dto.phone_number_id) bad_request
  token ← found (truthy dto.access_token) bad_request
  verify ← found (truthy dto.verify_token) bad_request
  validate accepted
  pure (
    phone,
    record (only_key none) {
      access_token = some token;
      verify_token = some verify;
      app_secret = dto.app_secret;
    },
  )
account_for accepted dto ChannelProvider.twilio_whatsapp = throw bad_request

-- @@unique([provider, externalAccountId])
abbrev pub same_account : ChannelProvider → String → ChannelConnection → Bool
same_account provider account c =
    same_provider c.provider provider && str_eq c.external_account_id account

abbrev pub connection_row :
    Env → CreateChannel → String → String → StoredCredentials → ChannelConnection
connection_row env dto user account credentials = record {
  id = env.row_id;
  provider = dto.provider;
  channel = channel_for_provider dto.provider;
  display_name = dto.display_name;
  status = ChannelStatus.connection_active;
  external_account_id = account;
  credentials = credentials;
  last_inbound_at = none;
  last_error = none;
  created_by = user;
}

unfoldable pub create_connection :
    Env → (accepted : Bool) → CreateChannel → (user : String) → Exec ChannelConnection
unfolding channel_for_provider
create_connection env accepted dto user = do
  (account, credentials) ← account_for accepted dto dto.provider
  existing ← reads λ s. find_first (same_account dto.provider account) s.connections
  throw_if (is_some existing) conflict
  let c = connection_row env dto user account credentials
  writes λ s. record s { connections = c ∷ s.connections }
  pure c

abbrev pub connection_by : ℕ → ChannelConnection → Bool
connection_by id c = c.id == id

abbrev pub find_connection : ℕ → Exec (Option ChannelConnection)
find_connection id = reads λ s. find_first (connection_by id) s.connections

-- findOneOrThrow
abbrev pub find_one_or_throw : ℕ → Exec ChannelConnection
find_one_or_throw id = do row ← find_connection id; found row not_found

abbrev pub put_connection : ℕ → (ChannelConnection → ChannelConnection) → Exec (Unit {0})
put_connection id f =
    writes λ s. record s { connections = update_where (connection_by id) f s.connections }

pub record UpdateConnection : Type 0 where
  pub display_name : Option String
  pub api_key : Option String
  pub from_email : Option String

abbrev pub new_credentials : Option String → StoredCredentials → StoredCredentials
new_credentials none old = old
new_credentials (some key) old = only_key (some key)

abbrev pub edit_connection : UpdateConnection → ChannelConnection → ChannelConnection
edit_connection dto c = record c {
  display_name = or_else dto.display_name c.display_name;
  external_account_id = or_else dto.from_email c.external_account_id;
  credentials = new_credentials dto.api_key c.credentials;
  last_error = none;
}

abbrev pub is_sendgrid : ChannelConnection → Bool
is_sendgrid c = same_provider c.provider ChannelProvider.sendgrid_email

abbrev pub changes_account : UpdateConnection → Bool
changes_account dto = is_some (truthy dto.api_key) || is_some (truthy dto.from_email)

-- The unique constraint on a changed account.
abbrev pub is_account_taken : ChannelConnection → ChannelConnection → Bool
is_account_taken c other =
    not (other.id == c.id) && same_account c.provider c.external_account_id other

unfoldable pub update_connection : (accepted : Bool) → ℕ → UpdateConnection → Exec ChannelConnection
update_connection accepted id dto = do
  c ← find_one_or_throw id
  throw_if (changes_account dto && not (is_sendgrid c)) bad_request
  throw_if (is_some (truthy dto.api_key) && not accepted) bad_request
  other ← reads λ s. find_first (is_account_taken (edit_connection dto c)) s.connections
  throw_if (is_some other) not_unique
  put_connection id (edit_connection dto)
  pure (edit_connection dto c)

abbrev pub with_status : ChannelStatus → ChannelConnection → ChannelConnection
with_status status c = record c { status = status }

unfoldable pub update_connection_status : ℕ → ChannelStatus → Exec ChannelConnection
update_connection_status id status = do
  c ← find_one_or_throw id
  put_connection id (with_status status)
  pure (with_status status c)

unfoldable pub remove_connection : ℕ → Exec (Unit {0})
remove_connection id = do
  c ← find_one_or_throw id
  writes λ s. record s { connections = delete_where (connection_by id) s.connections }

abbrev pub on_message_channel : MessageChannel → ChannelConnection → Bool
on_message_channel channel c = same_channel c.channel channel

-- The most recently made connection, whatever its status.
unfoldable pub find_connection_for_channel : MessageChannel → World → Option ChannelConnection
find_connection_for_channel channel s = find_first (on_message_channel channel) s.connections

unfoldable pub find_connection_for_provider : ChannelProvider → World → Option ChannelConnection
find_connection_for_provider provider s =
    find_first (λ (c : ChannelConnection). same_provider c.provider provider) s.connections

pub record ResolvedCredentials : Type 0 where
  pub api_key : Option String
  pub from_email : Option String
  pub verification_key : Option String
  pub access_token : Option String
  pub phone_number_id : Option String

abbrev pub sendgrid_of : ChannelConnection → Option String → Option ResolvedCredentials
sendgrid_of c none = none
sendgrid_of c (some key) = some (record {
  api_key = some key;
  from_email = some c.external_account_id;
  verification_key = c.credentials.verification_key;
  access_token = none;
  phone_number_id = none;
})

unfoldable pub resolve_credentials : ChannelConnection → Option ResolvedCredentials
resolve_credentials c = if is_sendgrid c then sendgrid_of c (truthy c.credentials.api_key) else none

unfoldable pub resolve_meta_credentials : ChannelConnection → ResolvedCredentials
resolve_meta_credentials c = record {
  api_key = none;
  from_email = none;
  verification_key = none;
  access_token = some (or_else c.credentials.access_token "");
  phone_number_id = some c.external_account_id;
}

abbrev pub heard : ℕ → ChannelConnection → ChannelConnection
heard now c = record c { last_inbound_at = some now }

unfoldable pub mark_inbound_received : Env → ℕ → Exec (Unit {0})
mark_inbound_received env id = do
  row ← find_connection id
  c ← found row record_missing
  put_connection id (heard env.now)
