-- ===== src/Data/ChannelTables.antt =====
-- ChannelConnection and its enums of backend/prisma/schema.prisma. The encrypted JSON text of the
-- credentials is given by what it holds (StoredCredentials of
-- backend/src/modules/channels/channels.service.ts). The newest row stands first.
use bravi_ai.Prelude.{ℕ, String, Option, Bool, ◌==◌}
use bravi_ai.Data.Enums.{MessageChannel}

pub data ChannelProvider : Type 0 where
  sendgrid_email meta_whatsapp twilio_whatsapp : ChannelProvider

pub data ChannelStatus : Type 0 where
  connection_active connection_disabled : ChannelStatus

pub record StoredCredentials : Type 0 where
  pub api_key : Option String
  pub verification_key : Option String
  pub access_token : Option String
  pub verify_token : Option String
  pub app_secret : Option String

pub record ChannelConnection : Type 0 where
  pub id : ℕ
  pub provider : ChannelProvider
  pub channel : MessageChannel
  pub display_name : String
  pub status : ChannelStatus
  pub external_account_id : String
  pub credentials : StoredCredentials
  pub last_inbound_at : Option ℕ
  pub last_error : Option String
  pub created_by : String

abbrev provider_index : ChannelProvider → ℕ
provider_index ChannelProvider.sendgrid_email = 0
provider_index ChannelProvider.meta_whatsapp = 1
provider_index ChannelProvider.twilio_whatsapp = 2

abbrev pub same_provider : ChannelProvider → ChannelProvider → Bool
same_provider a b = provider_index a == provider_index b
