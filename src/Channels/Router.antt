-- ===== src/Channels/Router.antt =====
-- backend/src/modules/outbound/channel-router.service.ts and adapter.factory.ts. Whether an adapter is
-- configured and what its provider answers are arguments, and so are the identifier of a mock and the
-- environment.
use bravi_ai.Text.{concat}
use bravi_ai.Outbound.Processor.{Answer, sent_as, refused, raised}
use bravi_ai.Channels.Service.{
  ResolvedCredentials, is_sendgrid, resolve_credentials, resolve_meta_credentials,
  find_connection_for_channel,
}
use bravi_ai.Data.{
  MessageChannel, ChannelStatus, ChannelConnection, same_provider, same_channel, ChannelProvider,
  World,
}
use bravi_ai.Prelude.{Option, Bool, some, String, true, false, none, if◌then◌else◌, not, ◌||◌}

pub data Adapter : Type 0 where
  email_adapter meta_adapter : Adapter

abbrev pub is_meta : Option ChannelConnection → Bool
is_meta none = false
is_meta (some c) = same_provider c.provider ChannelProvider.meta_whatsapp

-- adapters.get(channel)
abbrev pub default_adapter : MessageChannel → Option Adapter
default_adapter MessageChannel.email = some email_adapter
default_adapter MessageChannel.whatsapp = some meta_adapter
default_adapter MessageChannel.sms = none

unfoldable pub get_adapter : MessageChannel → Option ChannelConnection → Option Adapter
get_adapter channel c =
    if same_channel channel MessageChannel.whatsapp || is_meta c
    then some meta_adapter
    else default_adapter channel

abbrev pub channel_name : MessageChannel → String
channel_name MessageChannel.email = "EMAIL"
channel_name MessageChannel.whatsapp = "WHATSAPP"
channel_name MessageChannel.sms = "SMS"

abbrev pub is_switched_on : ChannelStatus → Bool
is_switched_on ChannelStatus.connection_active = true
is_switched_on ChannelStatus.connection_disabled = false

-- connection && connection.status !== ACTIVE
abbrev pub is_off : Option ChannelConnection → Bool
is_off none = false
is_off (some c) = not (is_switched_on c.status)

abbrev pub creds_for : Option ChannelConnection → Option ResolvedCredentials
creds_for none = none
creds_for (some c) =
    if is_sendgrid c
    then resolve_credentials c
    else if is_meta (some c)
    then some (resolve_meta_credentials c)
    else none

abbrev pub or_mock : (is_dev : Bool) → (fake_id : String) → Answer → Answer
or_mock true fake_id answer = sent_as (some fake_id)
or_mock false fake_id answer = answer

abbrev pub answer_of : (is_dev : Bool) → (fake_id : String) → Answer → Answer
answer_of is_dev fake_id (sent_as external) = sent_as external
answer_of is_dev fake_id (refused error) = or_mock is_dev fake_id (refused error)
answer_of is_dev fake_id (raised message) = or_mock is_dev fake_id (raised message)

module _ (is_dev : Bool) (fake_id : String)
    (is_configured : Adapter → Option ResolvedCredentials → Bool)
    (deliver_by : Adapter → Option ResolvedCredentials → Answer) where
  abbrev pub send_by : MessageChannel → Option ResolvedCredentials → Option Adapter → Answer
  send_by channel creds none =
      or_mock is_dev fake_id (refused (some (concat "No adapter for " (channel_name channel))))
  send_by channel creds (some adapter) =
      if is_configured adapter creds
      then answer_of is_dev fake_id (deliver_by adapter creds)
      else or_mock is_dev fake_id
          (refused (some (concat (channel_name channel) " adapter not configured")))

  abbrev pub send_through : MessageChannel → Option ChannelConnection → Answer
  send_through channel c =
      if is_off c
      then refused (some (concat (channel_name channel) " channel is disabled"))
      else send_by channel (creds_for c) (get_adapter channel c)

  unfoldable pub route_send : MessageChannel → World → Answer
  unfolding get_adapter resolve_credentials resolve_meta_credentials find_connection_for_channel
  route_send channel s = send_through channel (find_connection_for_channel channel s)
