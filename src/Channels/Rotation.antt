-- ===== src/Channels/Rotation.antt =====
-- The rotation of a SendGrid key in backend/src/modules/channels/channels.service.ts, and the guard of
-- backend/src/modules/webhooks/guards/sendgrid-signature.guard.ts.
use bravi_ai.Exec.{err, forbidden, ok}
use bravi_ai.Store.{truthy}
use bravi_ai.Data.{ChannelConnection, World, ChannelProvider, same_provider}
use bravi_ai.Channels.Service.{
  UpdateConnection, update_connection, find_connection_for_provider, connection_by,
  is_account_taken, edit_connection, resolve_credentials, is_sendgrid,
}
use bravi_ai.Channels.Webhook.{sendgrid_can_activate, SignedRequest, stored_key}
use bravi_ai.Prelude.{
  String, none, Bool, some, ◌≡◌, find_first, true, update_where, find_first-update_where,
  find_first-IsTrue, refl, ==_refl,
}

abbrev pub key_update : String → UpdateConnection
key_update key = record { display_name = none; api_key = some key; from_email = none }

-- The guard's key for a SendGrid connection with an API key is the stored one.
stored_key-verification :
    (c : ChannelConnection) (ak : String)
    → is_sendgrid c ≡ true
    → truthy c.credentials.api_key ≡ some ak
    → stored_key (some c) ≡ truthy c.credentials.verification_key
unfolding resolve_credentials
stored_key-verification c ak h a = rw (h, a) refl

provider-sendgrid :
    (c : ChannelConnection) (s : World)
    → find_connection_for_provider ChannelProvider.sendgrid_email s ≡ some c
    → is_sendgrid c ≡ true
unfolding find_connection_for_provider
provider-sendgrid c s h =
    find_first-IsTrue
      (λ (d : ChannelConnection). same_provider d.provider ChannelProvider.sendgrid_email)
      s.connections c h

abbrev rotated : String → ChannelConnection → World → World
rotated key c s = record s {
  connections = update_where (connection_by c.id) (edit_connection (key_update key)) s.connections;
}

update_connection-rotated :
    (key : String) (c : ChannelConnection) (s : World)
    → is_sendgrid c ≡ true
    → find_first (connection_by c.id) s.connections ≡ some c
    → find_first (is_account_taken (edit_connection (key_update key) c)) s.connections ≡ none
    → truthy (some key) ≡ some key
    → (update_connection true c.id (key_update key) s).1 ≡ rotated key c s
unfolding update_connection
update_connection-rotated key c s g here free k = rw (here, k, g, free) refl

rotated-provider :
    (key : String) (c : ChannelConnection) (s : World)
    → find_connection_for_provider ChannelProvider.sendgrid_email s ≡ some c
    → find_connection_for_provider ChannelProvider.sendgrid_email (rotated key c s)
      ≡ some (edit_connection (key_update key) c)
unfolding find_connection_for_provider
rotated-provider key c s h =
    rw
      (
        find_first-update_where (connection_by c.id)
            (λ (d : ChannelConnection). same_provider d.provider ChannelProvider.sendgrid_email)
            (edit_connection (key_update key)) (λ a. refl) s.connections,
        h,
        ==_refl c.id,
      )
      refl

-- A stored verification key makes the guard refuse a request without a signature, if no other row has
-- the account of the connection and none is configured. The rotation of the connection's API key to one
-- that the provider accepts drops the verification key, and from then on the guard lets any request
-- through, signed or not.
pub update_connection-drops_key :
    (verify : String → String → String → Bool) (r : SignedRequest) (key vk ak : String)
    (c : ChannelConnection) (s : World)
    → find_connection_for_provider ChannelProvider.sendgrid_email s ≡ some c
    → find_first (connection_by c.id) s.connections ≡ some c
    → find_first (is_account_taken (edit_connection (key_update key) c)) s.connections ≡ none
    → truthy c.credentials.verification_key ≡ some vk
    → truthy c.credentials.api_key ≡ some ak
    → truthy (some key) ≡ some key
    → truthy r.signature ≡ none
    → let t = (update_connection true c.id (key_update key) s).1 in
      (sendgrid_can_activate verify none r s ≡ (err forbidden, s))
      × ((q : SignedRequest) → sendgrid_can_activate verify none q t ≡ (ok true, t))
unfolding sendgrid_can_activate update_connection
update_connection-drops_key verify r key vk ak c s h here free v a k n =
    let g = provider-sendgrid c s h in
    (
      rw (h, stored_key-verification c ak g a, v, n) refl,
      λ q.
          rw
            (
              update_connection-rotated key c s g here free k,
              rotated-provider key c s h,
              stored_key-verification (edit_connection (key_update key) c) key g k,
            )
            refl,
    )
