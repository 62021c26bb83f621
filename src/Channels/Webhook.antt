-- ===== src/Channels/Webhook.antt =====
-- canActivate of backend/src/modules/webhooks/guards/sendgrid-signature.guard.ts. The check of a
-- signature is the crypto library's and an argument: whether a key accepts a signature of a timestamp
-- with the body.
use bravi_ai.Text.{concat}
use bravi_ai.Exec.{Exec, pure, ◌>>=◌, reads, found, forbidden, ◌>>◌, throw_if}
use bravi_ai.Store.{truthy}
use bravi_ai.Data.{ChannelConnection, ChannelProvider}
use bravi_ai.Channels.Service.{
  find_connection_for_provider, ResolvedCredentials, resolve_credentials,
}
use bravi_ai.Prelude.{Option, String, Bool, some, none, true, not}

pub record SignedRequest : Type 0 where
  pub signature : Option String
  pub timestamp : Option String
  pub raw_body : String

abbrev pub verification_key_of : Option ResolvedCredentials → Option String
verification_key_of none = none
verification_key_of (some creds) = truthy creds.verification_key

abbrev pub stored_key : Option ChannelConnection → Option String
stored_key none = none
stored_key (some c) = verification_key_of (resolve_credentials c)

-- The key of the connection, or the one that is configured.
abbrev pub public_key : Option String → Option String → Option String
public_key none env_key = truthy env_key
public_key (some key) env_key = some key

abbrev pub checked : (String → String → String → Bool) → SignedRequest → Option String → Exec Bool
checked verify r none = pure true
checked verify r (some key) = do
  signature ← found (truthy r.signature) forbidden
  timestamp ← found (truthy r.timestamp) forbidden
  throw_if (not (verify key signature (concat timestamp r.raw_body))) forbidden
  pure true

unfoldable pub sendgrid_can_activate :
    (verify : String → String → String → Bool)
    → (env_key : Option String) → SignedRequest
    → Exec Bool
unfolding find_connection_for_provider resolve_credentials
sendgrid_can_activate verify env_key r = do
  c ← reads λ s. find_connection_for_provider ChannelProvider.sendgrid_email s
  checked verify r (public_key (stored_key c) env_key)
