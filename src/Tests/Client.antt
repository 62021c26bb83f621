-- ===== src/Tests/Client.antt =====
-- The theorems on the browser's inbox at concrete inputs.
use bravi_ai.Client.Maps.{get}
use bravi_ai.Messaging.ReadMark.{handle_read_mark}
use bravi_ai.Client.Preview.{render_body_keeps}
use bravi_ai.Qualification.Worker.{new_events}
use bravi_ai.Tests.Sample.{world, ana}
use bravi_ai.Store.{contact_by}
use bravi_ai.Data.{Contact, MessageChannel}
use bravi_ai.Client.Sweeping.{IsKeyed, swept, sweep_stuck_outbox_messages-get}
use bravi_ai.Client.ReadSync.{IsClear, receive, read_mark_shown}
use bravi_ai.Inbox.Numbers.{IsNumberedWorld}
use bravi_ai.Client.TemplateParse.{value_of, render_body}
use bravi_ai.Client.InboxStore.{
  OutboxEntry, InboxStore, sweep_stuck_outbox_messages, empty_store, sending,
}
use bravi_ai.Client.Badges.{
  NoTwice, SocketEvent, listen_all, row_updated, listen_all-NoTwice, row_read,
}
use bravi_ai.Prelude.{List, find_first, All, some, ◌∷◌, ◌≡◌, [], arith, refl, none}
use bravi_ai.Chat.Paging.Unique.{Distinct}
use bravi_ai.Client.ConversationCache.{ConversationRow, Cache}
use mathlib.Core.Option

abbrev row : ConversationRow
row = record {
  contact_id = 1;
  contact_name = "Ana";
  last_message_preview = "Hello";
  last_message_at = 5;
  last_message_channel = MessageChannel.email;
  last_message_seq = 4;
  last_read_seq = 0;
  unread_count = 4;
  channels = MessageChannel.email ∷ [];
}

abbrev cache : Cache
cache = (some MessageChannel.email, row ∷ []) ∷ (none, row ∷ []) ∷ []

cache-NoTwice : NoTwice cache
unfolding Distinct
cache-NoTwice = ((tt, tt), ((tt, tt), tt))

abbrev news : List SocketEvent
news =
    row_updated (record {
      contact_id = 1;
      last_message_preview = "Hi";
      last_message_at = 9;
      last_message_channel = MessageChannel.email;
      last_message_seq = 5;
      last_read_seq = 4;
    })
    ∷ row_read 1 5
    ∷ []

listen_all-NoTwice_example : NoTwice (listen_all news cache)
listen_all-NoTwice_example = listen_all-NoTwice news cache cache-NoTwice

contacts-Distinct : Distinct (λ (a : Contact). a.id) world.contacts
unfolding Distinct
contacts-Distinct = (tt, tt)

known_ana : find_first (contact_by ana.id) world.contacts ≡ some ana
unfolding find_first
known_ana = refl

numbered : IsNumberedWorld world
unfolding find_first
numbered = (omega arith, tt, tt)

read_mark_shown_example :
    All
      (λ l. All (IsClear 1 4) l.1)
      (receive
        (new_events world.events (handle_read_mark (some "u1") (some 1) world).1.events)
        cache)
read_mark_shown_example =
    read_mark_shown ana world "u1" cache contacts-Distinct known_ana numbered (omega arith)
      cache-NoTwice

abbrev outgoing : OutboxEntry
outgoing = record {
  client_message_id = 7;
  contact_id = 1;
  channel = MessageChannel.email;
  status = sending;
  attempts = 1;
  first_attempt_at = 1000;
  body = "Hello";
}

abbrev store : InboxStore
store = record empty_store { outbox = (7, outgoing) ∷ [] }

store-IsKeyed : IsKeyed store.outbox
unfolding Distinct
store-IsKeyed = ((refl, tt), (tt, tt))

sweep_stuck_outbox_messages-get_example :
    let t = sweep_stuck_outbox_messages 40000 store in
    (get 7 t.outbox ≡ Option.map (swept 40000) (get 7 store.outbox))
    × (record t { outbox = store.outbox } ≡ store)
sweep_stuck_outbox_messages-get_example =
    sweep_stuck_outbox_messages-get 40000 7 store store-IsKeyed

render_body_keeps_example : render_body "Hi [ Name ], [[x]" [] ≡ "Hi [ Name ], [[x]"
unfolding value_of
render_body_keeps_example = render_body_keeps "Hi [ Name ], [[x]" [] (λ inner. refl)
