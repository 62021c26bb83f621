-- ===== src/Channels/Switched.antt =====
-- The toggle of backend/src/modules/channels/channels.service.ts and the router of
-- backend/src/modules/outbound/channel-router.service.ts.
use bravi_ai.Text.{concat}
use bravi_ai.Outbound.Processor.{Answer, refused}
use bravi_ai.Channels.Router.{route_send, Adapter, channel_name, send_through}
use bravi_ai.Prelude.{
  Bool, ℕ, String, ◌≡◌, Option, List, find_first, update_where, edit, some, find_first-update_where,
  ◌==◌, false, ==_refl, ◌∙◌, ap, refl, none,
}
use bravi_ai.Channels.Service.{
  update_connection_status, find_connection_for_channel, with_status, ResolvedCredentials,
  connection_by, on_message_channel,
}
use bravi_ai.Data.{ChannelConnection, ChannelStatus, MessageChannel, World}
use mathlib.Core.Option

find-status :
    (p : ChannelConnection → Bool) (id : ℕ) (status : ChannelStatus)
    → ((c : ChannelConnection) → p (with_status status c) ≡ p c)
    → (cs : List ChannelConnection)
    → find_first p (update_where (connection_by id) (with_status status) cs)
      ≡ Option.map (edit (connection_by id) (with_status status)) (find_first p cs)
find-status p id status h cs =
    find_first-update_where (connection_by id) p (with_status status) h cs

-- When the connection that a channel uses is switched off, every send over the channel is refused as
-- disabled, in development too and whatever the adapters would answer, and a send over a channel that
-- uses another connection or none is routed as before.
pub update_connection_status-route_send :
    (is_dev : Bool) (fake_id : String) (is_configured : Adapter → Option ResolvedCredentials → Bool)
    (deliver_by : Adapter → Option ResolvedCredentials → Answer) (channel : MessageChannel)
    (c : ChannelConnection) (s : World)
    → find_connection_for_channel channel s ≡ some c
    → find_first (connection_by c.id) s.connections ≡ some c
    → let t = (update_connection_status c.id ChannelStatus.connection_disabled s).1 in
      (route_send is_dev fake_id is_configured deliver_by channel t
        ≡ refused (some (concat (channel_name channel) " channel is disabled")))
      × ((other : MessageChannel)
          → ((d : ChannelConnection)
              → find_connection_for_channel other s ≡ some d
              → (d.id == c.id) ≡ false)
          → route_send is_dev fake_id is_configured deliver_by other t
            ≡ route_send is_dev fake_id is_configured deliver_by other s)
unfolding update_connection_status route_send find_connection_for_channel
update_connection_status-route_send is_dev fake_id is_configured deliver_by channel c s h here =
    rw here (
      ap (send_through is_dev fake_id is_configured deliver_by channel) off,
      λ other apart.
          ap (send_through is_dev fake_id is_configured deliver_by other) (same other apart),
    )
  where
    off :
        find_first (on_message_channel channel) (
          update_where
            (connection_by c.id)
            (with_status ChannelStatus.connection_disabled)
            s.connections)
        ≡ some (with_status ChannelStatus.connection_disabled c)
    off =
        rw
          (
            find-status (on_message_channel channel) c.id ChannelStatus.connection_disabled
                (λ a. refl) s.connections,
            h,
            ==_refl c.id,
          )
          refl

    kept :
        (o : Option ChannelConnection)
        → ((d : ChannelConnection) → o ≡ some d → (d.id == c.id) ≡ false)
        → Option.map (edit (connection_by c.id) (with_status ChannelStatus.connection_disabled)) o
          ≡ o
    kept none h = refl
    kept (some d) h = rw (h d refl) refl

    same :
        (other : MessageChannel)
        → ((d : ChannelConnection)
            → find_connection_for_channel other s ≡ some d
            → (d.id == c.id) ≡ false)
        → find_first (on_message_channel other) (
            update_where
              (connection_by c.id)
              (with_status ChannelStatus.connection_disabled)
              s.connections)
          ≡ find_first (on_message_channel other) s.connections
    same other apart =
        find-status (on_message_channel other) c.id ChannelStatus.connection_disabled (λ a. refl)
          s.connections
        ∙ kept (find_first (on_message_channel other) s.connections) apart
