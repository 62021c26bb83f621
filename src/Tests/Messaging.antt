-- ===== src/Tests/Messaging.antt =====
-- The theorems on conversations, unread counts and read marks at concrete inputs.
use bravi_ai.Messaging.Counts.{has_unread, unread_contacts_rows}
use bravi_ai.Messaging.ReadMark.{handle_read_mark}
use bravi_ai.Messaging.Pages.{at_page, tally, with_contact, read_pages, read_pages_complete}
use bravi_ai.Tests.Sample.{ana, env, world}
use bravi_ai.Inbox.Numbers.{IsNumberedWorld}
use bravi_ai.Store.{contact_by}
use bravi_ai.Data.{Contact, MessageChannel}
use bravi_ai.Ordering.{sort_desc-Orders}
use bravi_ai.Prelude.{ℕ, List, sort_desc}
use bravi_ai.Data.{Contact}
use bravi_ai.Messaging.Conversations.{
  seen_at, any_row, ConversationQuery, list_conversations, is_listed,
}
use bravi_ai.Messaging.Reading.{Marks, handle_read_mark-Marks, one_if}
use bravi_ai.Messaging.Summary.{unread_contacts}
use bravi_ai.Prelude.{find_first, none, some, ◌≡◌, arith, refl, length, find_many}
use bravi_ai.Chat.Paging.Unique.{Distinct}

contacts-Distinct : Distinct (λ (a : Contact). a.id) world.contacts
unfolding Distinct
contacts-Distinct = (tt, tt)

found_ana : find_first (contact_by ana.id) world.contacts ≡ some ana
unfolding find_first
found_ana = refl

numbered_world : IsNumberedWorld world
unfolding find_first
numbered_world = (omega arith, tt, tt)

unread_contacts_rows_example :
    unread_contacts MessageChannel.email world
    ≡ length (find_many (has_unread MessageChannel.email world.messages) world.contacts)
unread_contacts_rows_example = unread_contacts_rows MessageChannel.email world contacts-Distinct

handle_read_mark-Marks_example : Marks ana world (handle_read_mark (some "u1") (some 1) world)
handle_read_mark-Marks_example =
    handle_read_mark-Marks ana world contacts-Distinct found_ana numbered_world "u1"

abbrev all_mail : ConversationQuery
all_mail = record { search = none; page = none; limit = some 1; channel = none }

-- The database gives the rows of every request by insertion.
abbrev by_seen : ℕ → List Contact → List Contact
by_seen n = sort_desc seen_at

read_pages_complete_example :
    let n =
      (list_conversations (by_seen 1) env (at_page all_mail 1) (some "u1") world).total_pages in
    tally (with_contact 1) (read_pages by_seen env all_mail (some "u1") world n)
    ≡ one_if (is_listed all_mail world.messages ana)
unfolding is_listed any_row find_many Distinct
read_pages_complete_example =
    read_pages_complete by_seen env all_mail (some "u1") world ana (λ n. sort_desc-Orders seen_at)
      (tt, tt) contacts-Distinct found_ana
