-- ===== src/Chat/Access.antt =====
-- Who may do what in a room of backend/src/modules/chat/chat.service.ts.
use bravi_ai.Chat.Channels.{remove_member, UpdateChannel, update_channel, add_members, is_common}
use bravi_ai.Chat.Receipts.{is_direct}
use bravi_ai.Chat.Members.{conversation_by}
use bravi_ai.Data.{ChatConversation}
use bravi_ai.Prelude.{str_eq, ◌||◌}
use bravi_ai.Chat.Members.{participant_by, assert_active_member, active}
use bravi_ai.Chat.Receipts.{get_room_meta}
use bravi_ai.Chat.History.{
  get_messages, get_newer_messages, get_messages_around, search_messages, get_pinned_messages,
  get_starred_messages, RowOrder,
}
use bravi_ai.Chat.Messages.{
  ChatInput, send_message, toggle_pin_message, toggle_star_message, edit_message,
  delete_message_for_everyone, message_by, toggle_pinned,
}
use bravi_ai.Chat.Reactions.{toggle_reaction, upload_attachment}
use bravi_ai.Prelude.{
  ℕ, Bool, false, String, Option, none, some, ◌≡◌, find_first, arith, ◌⊎◌, List, refl, true,
  find_first-IsTrue, find_first-update_where, not,
}
use bravi_ai.Data.{World, Env, ChatMessage}
use bravi_ai.Exec.{Exception, Result, ok, err, forbidden, bad_request, not_found}
use bravi_ai.Outbound.Draft.Attachments.{Upload}

-- The calls of ChatService that name a room and check the caller's membership of it, without the
-- permission that lets a caller bypass the check. getMembers and getChannelFiles, which check it too,
-- are not modelled. markRead, markDelivered, getUnreadCount, computeRoomReceipts, isActiveMember,
-- getActiveMemberIds and ensureMembership name a room and check nothing; nor does removeMember for a
-- caller who removes himself.
pub data RoomCall : Type 0 where
  read_meta : RoomCall
  read_older : (cursor limit : Option ℕ) → RoomCall
  read_newer : (cursor limit : ℕ) → RoomCall
  read_around : (message_id before after : ℕ) → RoomCall
  search_for : String → ℕ → RoomCall
  read_pinned : RoomCall
  read_starred : RoomCall
  write : ChatInput → RoomCall
  pin : ℕ → RoomCall
  star : ℕ → RoomCall
  rewrite : ℕ → String → RoomCall
  erase : ℕ → RoomCall
  react : ℕ → String → RoomCall
  upload : Upload → RoomCall
  change : UpdateChannel → RoomCall
  invite : List String → RoomCall
  expel : String → RoomCall

-- The exception that a call ends with, and the world after it.
abbrev pub Outcome : Type 0
Outcome = Option Exception × World

abbrev pub exception_of {ℓ} : {A : Type ℓ} → Result A → Option Exception
exception_of (ok a) = none
exception_of (err e) = some e

abbrev pub outcome {ℓ} : {A : Type ℓ} → Result A × World → Outcome
outcome r = (exception_of r.0, r.1)

-- `order` and `order_back` are the orders of the rows in the queries of a call.
unfoldable pub call_room :
    (order order_back : RowOrder) → Env → RoomCall → (room : ℕ) → (user : String) → World → Outcome
call_room order order_back env read_meta room user s = outcome (get_room_meta room user s)
call_room order order_back env (read_older cursor limit) room user s =
    outcome (get_messages order room cursor limit user s)
call_room order order_back env (read_newer cursor limit) room user s =
    outcome (get_newer_messages order room cursor limit user s)
call_room order order_back env (read_around id before after) room user s =
    outcome (get_messages_around order order_back room id before after user s)
call_room order order_back env (search_for q limit) room user s =
    outcome (search_messages order room q limit user s)
call_room order order_back env read_pinned room user s =
    outcome (get_pinned_messages order room user s)
call_room order order_back env read_starred room user s =
    outcome (get_starred_messages order room user s)
call_room order order_back env (write input) room user s =
    outcome (send_message env (record input { conversation_id = room; sender_id = user }) s)
call_room order order_back env (pin id) room user s = outcome (toggle_pin_message id room user s)
call_room order order_back env (star id) room user s = outcome (toggle_star_message id room user s)
call_room order order_back env (rewrite id content) room user s =
    outcome (edit_message env id content user room s)
call_room order order_back env (erase id) room user s =
    outcome (delete_message_for_everyone env id user room s)
call_room order order_back env (react id emoji) room user s =
    outcome (toggle_reaction room id user emoji s)
call_room order order_back env (upload u) room user s = outcome (upload_attachment room user u s)
call_room order order_back env (change input) room user s =
    outcome (update_channel env room user input false s)
call_room order order_back env (invite ids) room user s =
    outcome (add_members room user ids false s)
call_room order order_back env (expel target) room user s =
    outcome (remove_member room user target false s)

-- The caller removes himself.
abbrev pub is_leaving : String → RoomCall → Bool
is_leaving user (expel target) = str_eq user target
is_leaving user _ = false

-- The calls that look at the room before they look at the membership.
abbrev pub manages : RoomCall → Bool
manages (change input) = true
manages (invite ids) = true
manages (expel target) = true
manages _ = false

-- The calls that look at their input before they look at the membership.
abbrev pub writes_text : RoomCall → Bool
writes_text (write input) = true
writes_text _ = false

-- The call throws before it changes anything: Forbidden, if it does not find fault with the message
-- or with the room first.
abbrev pub Turned : RoomCall → World → Outcome → Type 0
Turned c s r =
    (r ≡ (some forbidden, s))
    ⊎ ((r ≡ (some bad_request, s)) × (manages c || writes_text c ≡ true))
    ⊎ ((r ≡ (some not_found, s)) × (manages c ≡ true))

-- The user has no membership of the room, or an inactive one.
abbrev pub IsOutside : ℕ → String → World → Type 0
IsOutside room user s = active (find_first (participant_by room user) s.chat.participants) ≡ false

-- The room is there, and is neither a direct message nor the common room.
abbrev IsChannel : ℕ → World → Type 0
IsChannel room s =
    (c : ChatConversation) × (find_first (conversation_by room) s.chat.conversations ≡ some c)
    × (is_direct c.type ≡ false)
    × (is_common c ≡ false)

-- The call is forbidden and changes nothing; a message without text may be a bad request.
abbrev pub Barred : RoomCall → World → Outcome → Type 0
Barred c s r = (r ≡ (some forbidden, s)) ⊎ ((r ≡ (some bad_request, s)) × (writes_text c ≡ true))

-- Pinning does not compare rooms: a user outside the room of a message, who is an active member of some
-- room, toggles the pin of that message by naming his own room; the call succeeds, and the message
-- is stored with the other value.
toggle_pin_message-IsOutside :
    (id room : ℕ) (user : String) (s : World) (m : ChatMessage)
    → find_first (message_by id) s.chat.messages ≡ some m
    → IsOutside m.conversation_id user s
    → active (find_first (participant_by room user) s.chat.participants) ≡ true
    → let r = toggle_pin_message id room user s in
      (r.0 ≡ ok (toggle_pinned m))
      × (find_first (message_by id) r.1.chat.messages ≡ some (toggle_pinned m))
unfolding toggle_pin_message assert_active_member
toggle_pin_message-IsOutside id room user s m h o a = ground (
  arith,
  find_first-IsTrue (message_by id) s.chat.messages m h,
  find_first-update_where (message_by id) (message_by id)
      (λ x. record x { is_pinned = not m.is_pinned }) (λ x. refl) s.chat.messages,
  h,
  a,
)
