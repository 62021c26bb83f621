-- ===== src/Tests/Chat.antt =====
-- The team chat at a small input: a room of two members, with a message each, and another room.
use bravi_ai.Prelude.{
  ℕ, ◌≡◌, refl, ◌∷◌, [], true, false, some, none, Option, String, suc, length, reverse, find_many,
  find_first, ◌↔◌, arith,
}
use bravi_ai.Data.{
  World, User, ChatConversation, ChatConversationType, ChatParticipant, ChatParticipantRole,
  ChatMessage, ChatMessageType,
}
use bravi_ai.Exec.{ok}
use bravi_ai.Tests.Sample.{world, env, staff}
use bravi_ai.Chat.Members.{assert_active_member, emit_conversation_updated}
use bravi_ai.Chat.Receipts.{compute_room_receipts, Receipts, members_of}
use bravi_ai.Chat.Reactions.{toggle_reaction}
use bravi_ai.Chat.Channels.{open_dm, dm_key, create_dm}
use bravi_ai.Chat.History.{newest_first, is_visible, written_at, RowOrder}
use bravi_ai.Chat.Receipts.{is_hidden_from}
use bravi_ai.Ordering.{sort_desc-Orders}
use bravi_ai.Prelude.{sort_desc}
use bravi_ai.Chat.Watermarks.{Reached, AllReached, compute_room_receipts-Reached}
use bravi_ai.Chat.Paging.Unique.{Distinct}
use bravi_ai.Chat.Paging.{read_all, read_all-newest_first}

abbrev room : ℕ → ChatConversation
room id = record {
  id = id;
  type = ChatConversationType.group;
  name = some "Sales";
  key = none;
  description = none;
  archived_at = none;
  created_by = none;
  last_message_at = none;
}

abbrev joined : ℕ → String → ChatParticipantRole → Option ℕ → ChatParticipant
joined id user role at = record {
  conversation_id = id;
  user_id = user;
  role = role;
  last_read_at = at;
  last_delivered_at = at;
  is_active = true;
}

abbrev said : ℕ → ℕ → String → ChatMessage
said id conversation_id user = record {
  id = id;
  conversation_id = conversation_id;
  sender_id = user;
  type = ChatMessageType.text;
  content = some "Hello";
  parent_message_id = none;
  is_pinned = false;
  is_deleted = false;
  deleted_at = none;
  edited_at = none;
  is_starred = false;
  deleted_for = [];
  created_at = id;
}

abbrev mate : User
mate = record { id = "u2"; display_name = ""; user_name = "kim"; is_active = true }

-- u1 and u2 are in room 1, u2 also in room 2.
abbrev chat_world : World
chat_world = record world {
  users = staff ∷ mate ∷ [];
  chat = record {
    conversations = room 1 ∷ room 2 ∷ [];
    participants =
        joined 1 "u1" ChatParticipantRole.admin (some 8)
        ∷ joined 1 "u2" ChatParticipantRole.member (some 9)
        ∷ joined 2 "u2" ChatParticipantRole.member none
        ∷ [];
    messages = said 12 1 "u2" ∷ said 11 1 "u1" ∷ said 10 2 "u2" ∷ [];
    reactions = [];
    attachments = [];
  };
}

-- The database gives the rows of every query by insertion.
abbrev by_time : ℕ → RowOrder
by_time i = sort_desc written_at

compute_room_receipts-Reached_example :
    (r : Receipts) × (compute_room_receipts 1 chat_world ≡ (ok r, chat_world))
    × (Reached 8 r.0 ↔ AllReached (λ p. p.last_delivered_at) 8 (members_of 1 chat_world))
    × (Reached 8 r.1 ↔ AllReached (λ p. p.last_read_at) 8 (members_of 1 chat_world))
compute_room_receipts-Reached_example = compute_room_receipts-Reached 1 8 chat_world

reacted :
    (toggle_reaction 1 11 "u2" "+1" chat_world).0
    ≡ ok (record { chat_message_id = 11; user_id = "u2"; emoji = "+1" } ∷ [])
unfolding toggle_reaction assert_active_member find_first find_many
reacted = refl

abbrev talk : ChatConversation
talk = record {
  id = 50;
  type = ChatConversationType.direct;
  name = none;
  key = some "DM:u1:u2";
  description = none;
  archived_at = none;
  created_by = some "u1";
  last_message_at = none;
}

opened : (open_dm env "u1" "u2" chat_world).0 ≡ ok talk
unfolding open_dm create_dm dm_key find_first emit_conversation_updated
opened = refl

read_all-newest_first_example :
    let rows = newest_first (sort_desc written_at) (is_visible 1 "u1") chat_world in
    read_all by_time (suc (length rows)) 1 none 1 "u1" chat_world ≡ (ok (reverse rows), chat_world)
unfolding find_first find_many is_hidden_from Distinct
read_all-newest_first_example =
    read_all-newest_first by_time 1 0 "u1" chat_world (λ i. sort_desc-Orders written_at) refl
      ((ground arith, (ground arith, tt)), ((ground arith, tt), (tt, tt)))
      ((ground arith, tt), (tt, tt))
