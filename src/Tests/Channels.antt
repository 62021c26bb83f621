-- ===== src/Tests/Channels.antt =====
-- The theorems on channel connections at concrete inputs.
use bravi_ai.Channels.Switched.{update_connection_status-route_send}
use bravi_ai.Exec.{err, forbidden, ok}
use bravi_ai.Outbound.Processor.{Answer, refused, sent_as}
use bravi_ai.Channels.Rotation.{key_update, update_connection-drops_key}
use bravi_ai.Tests.Sample.{world}
use bravi_ai.Channels.Router.{Adapter, route_send}
use bravi_ai.Channels.Webhook.{SignedRequest, sendgrid_can_activate}
use bravi_ai.Prelude.{
  find_first, String, none, Option, Bool, true, some, ◌∷◌, ◌≡◌, false, [], refl, ◌==◌,
}
use bravi_ai.Channels.Service.{
  find_connection_for_channel, find_connection_for_provider, update_connection_status,
  update_connection, connection_by, is_account_taken, edit_connection, ResolvedCredentials,
}
use bravi_ai.Data.{ChannelConnection, World, ChannelProvider, MessageChannel, ChannelStatus}

abbrev mail_channel : ChannelConnection
mail_channel = record {
  id = 3;
  provider = ChannelProvider.sendgrid_email;
  channel = MessageChannel.email;
  display_name = "Sales";
  status = ChannelStatus.connection_active;
  external_account_id = "sales@b.io";
  credentials = record {
    api_key = some "SG.old-key";
    verification_key = some "MFkw";
    access_token = none;
    verify_token = none;
    app_secret = none;
  };
  last_inbound_at = none;
  last_error = none;
  created_by = "u1";
}

abbrev connected_world : World
connected_world = record world { connections = mail_channel ∷ [] }

mail_connection :
    find_connection_for_channel MessageChannel.email connected_world ≡ some mail_channel
unfolding find_connection_for_channel find_first
mail_connection = refl

mail_provider :
    find_connection_for_provider ChannelProvider.sendgrid_email connected_world ≡ some mail_channel
unfolding find_connection_for_provider find_first
mail_provider = refl

mail_row : find_first (connection_by 3) connected_world.connections ≡ some mail_channel
unfolding find_first
mail_row = refl

account_free :
    find_first
      (is_account_taken (edit_connection (key_update "SG.new-key") mail_channel))
      connected_world.connections
    ≡ none
unfolding find_first
account_free = refl

abbrev unsigned : SignedRequest
unsigned = record { signature = none; timestamp = none; raw_body = "{}" }

abbrev always : Adapter → Option ResolvedCredentials → Bool
always adapter creds = true

abbrev delivered_as : Adapter → Option ResolvedCredentials → Answer
delivered_as adapter creds = sent_as (some "x-1")

abbrev never_valid : String → String → String → Bool
never_valid key signature text = false

update_connection_status-route_send_example :
    let t = (update_connection_status 3 ChannelStatus.connection_disabled connected_world).1 in
    (route_send true "mock_1" always delivered_as MessageChannel.email t
      ≡ refused (some "EMAIL channel is disabled"))
    × ((other : MessageChannel)
        → ((d : ChannelConnection)
            → find_connection_for_channel other connected_world ≡ some d
            → (d.id == 3) ≡ false)
        → route_send true "mock_1" always delivered_as other t
          ≡ route_send true "mock_1" always delivered_as other connected_world)
update_connection_status-route_send_example =
    update_connection_status-route_send true "mock_1" always delivered_as MessageChannel.email
      mail_channel connected_world mail_connection mail_row

update_connection-drops_key_example :
    let t = (update_connection true 3 (key_update "SG.new-key") connected_world).1 in
    (sendgrid_can_activate never_valid none unsigned connected_world
      ≡ (err forbidden, connected_world))
    × ((q : SignedRequest) → sendgrid_can_activate never_valid none q t ≡ (ok true, t))
update_connection-drops_key_example =
    update_connection-drops_key never_valid unsigned "SG.new-key" "MFkw" "SG.old-key" mail_channel
      connected_world mail_provider mail_row account_free refl refl refl refl
