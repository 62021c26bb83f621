-- ===== src/Chat/Receipts.antt =====
-- Delivery and read watermarks in backend/src/modules/chat/chat.service.ts: computeRoomReceipts,
-- minWatermark, markDelivered, markRead, emitReceipts, getUnreadCount, getUnreadForUser, getRoomMeta
-- and getRoomForUser.
use bravi_ai.Chat.Members.{
  put_chat, participant_by, find_participant, is_active_in, assert_active_member, find_conversation,
  get_or_create_common_room, ensure_membership, common_room_key, find_by_key,
}
use bravi_ai.Prelude.{
  ℕ, Bool, true, false, not, ◌&&◌, ◌||◌, String, Option, none, some, List, [], ◌∷◌, map, ◌==◌,
  str_eq, if◌then◌else◌, find_first, find_many, update_where, length, ltb, leb, reverse, sort_desc,
  suc, zero,
}
use bravi_ai.Data.{
  ChatConversation, ChatConversationType, ChatParticipant, ChatParticipantRole, ChatMessage, World,
  Env, User, receipts_updated,
}
use bravi_ai.Exec.{Exec, pure, reads, found, emit, ◌>>=◌, ◌>>◌, not_found}
use bravi_ai.Enquiry.Manage.{name_of}

-- The loop of minWatermark, from the least time so far.
unfoldable pub min_from : Option ℕ → List (Option ℕ) → Option ℕ
min_from least [] = least
min_from least (none ∷ ds) = none
min_from none (some d ∷ ds) = min_from (some d) ds
min_from (some m) (some d ∷ ds) = min_from (some (if ltb d m then d else m)) ds

abbrev pub Receipts : Type 0
Receipts = Option ℕ × Option ℕ

abbrev pub members_of : ℕ → World → List ChatParticipant
members_of conversation_id s = find_many (is_active_in conversation_id) s.chat.participants

abbrev pub receipts_of : List ChatParticipant → Receipts
receipts_of members = if leb (length members) 1 then (none, none) else (
  min_from none (map (λ (p : ChatParticipant). p.last_delivered_at) members),
  min_from none (map (λ (p : ChatParticipant). p.last_read_at) members),
)

-- { deliveredUpTo, readUpTo }
unfoldable pub compute_room_receipts : ℕ → Exec Receipts
unfolding min_from
compute_room_receipts conversation_id = reads λ s. receipts_of (members_of conversation_id s)

unfoldable pub emit_receipts : ℕ → Exec (Unit {0})
unfolding compute_room_receipts
emit_receipts conversation_id = do
  r ← compute_room_receipts conversation_id
  emit (receipts_updated conversation_id r.0 r.1)

-- where: { conversationId, userId, isActive: true }
abbrev pub active_member : ℕ → String → ChatParticipant → Bool
active_member conversation_id user p = participant_by conversation_id user p && p.is_active

abbrev pub put_watermark : ℕ → String → (ChatParticipant → ChatParticipant) → Exec (Unit {0})
put_watermark conversation_id user f = put_chat λ t. record t {
  participants = update_where (active_member conversation_id user) f t.participants;
}

unfoldable pub mark_delivered : Env → ℕ → (user : String) → Exec (Unit {0})
unfolding emit_receipts
mark_delivered env conversation_id user = do
  put_watermark conversation_id user (λ p. record p { last_delivered_at = some env.now })
  emit_receipts conversation_id

unfoldable pub mark_read : Env → ℕ → (user : String) → Exec (Unit {0})
unfolding emit_receipts
mark_read env conversation_id user = do
  put_watermark conversation_id user
      (λ p. record p { last_read_at = some env.now; last_delivered_at = some env.now })
  emit_receipts conversation_id

-- deletedFor: { has: userId }
unfoldable pub is_hidden_from : List String → String → Bool
is_hidden_from [] user = false
is_hidden_from (u ∷ us) user = str_eq u user || is_hidden_from us user

-- createdAt: { gt: lastReadAt }, when there is one
abbrev pub is_after : Option ℕ → ℕ → Bool
is_after none at = true
is_after (some t) at = ltb t at

-- Another user's message that is not deleted and newer than the watermark.
abbrev pub is_new_for : ℕ → String → Option ℕ → ChatMessage → Bool
is_new_for conversation_id user read m =
    m.conversation_id == conversation_id
    && (not m.is_deleted && (not (str_eq m.sender_id user) && is_after read m.created_at))

abbrev pub unread_for : ℕ → String → Option ℕ → ChatMessage → Bool
unread_for conversation_id user read m =
    is_new_for conversation_id user read m && not (is_hidden_from m.deleted_for user)

abbrev pub count_unread : ℕ → String → Option ChatParticipant → World → ℕ
count_unread conversation_id user none s = 0
count_unread conversation_id user (some p) s =
    length (find_many (unread_for conversation_id user p.last_read_at) s.chat.messages)

unfoldable pub get_unread_count : ℕ → (user : String) → Exec ℕ
unfolding is_hidden_from
get_unread_count conversation_id user = do
  p ← find_participant conversation_id user
  reads (count_unread conversation_id user p)

abbrev pub unread_in : String → Option ChatConversation → Exec (Option ℕ × ℕ)
unread_in user none = pure (none, 0)
unread_in user (some c) = do n ← get_unread_count c.id user; pure (some c.id, n)

unfoldable pub get_unread_for_user : String → Exec (Option ℕ × ℕ)
get_unread_for_user user = do room ← find_by_key common_room_key; unread_in user room

abbrev pub head : List ChatMessage → Option ChatMessage
head [] = none
head (m ∷ ms) = some m

abbrev pub id_of : Option ChatMessage → Option ℕ
id_of none = none
id_of (some m) = some m.id

abbrev pub read_of : Option ChatParticipant → Option ℕ
read_of none = none
read_of (some p) = p.last_read_at

abbrev pub role_of : Option ChatParticipant → Option ChatParticipantRole
role_of none = none
role_of (some p) = some p.role

-- orderBy: { createdAt: 'asc' }, first row
unfoldable pub first_unread : ℕ → String → Option ℕ → World → Option ℕ
first_unread conversation_id user read s = id_of (
    head (
      reverse (
        sort_desc (λ (m : ChatMessage). m.created_at)
          (find_many (is_new_for conversation_id user read) s.chat.messages))))

-- The first other member of the table.
abbrev pub is_partner : ℕ → String → ChatParticipant → Bool
is_partner conversation_id user p =
    p.conversation_id == conversation_id && not (str_eq p.user_id user)

abbrev pub user_name : Option User → String
user_name none = "Direct Message"
user_name (some u) = if str_eq (name_of u) "" then "Direct Message" else name_of u

abbrev pub name_of_partner : World → Option ChatParticipant → String
name_of_partner s none = "Direct Message"
name_of_partner s (some p) = user_name (find_first (λ u. str_eq u.id p.user_id) s.users)

abbrev pub is_direct : ChatConversationType → Bool
is_direct ChatConversationType.direct = true
is_direct ChatConversationType.group = false

-- A direct message shows the other person's name.
unfoldable pub shown_name : ChatConversation → String → World → Option String
shown_name c user s =
    if is_direct c.type
    then some (name_of_partner s (find_first (is_partner c.id user) s.chat.participants))
    else c.name

pub record RoomMeta : Type 0 where
  pub room : ChatConversation
  pub name : Option String
  pub my_role : Option ChatParticipantRole
  pub member_count : ℕ
  pub last_read_at : Option ℕ
  pub unread_count : ℕ
  pub first_unread_message_id : Option ℕ
  pub receipts : Receipts

abbrev pub anchor : ℕ → String → Option ChatParticipant → ℕ → World → Option ℕ
anchor conversation_id user p zero s = none
anchor conversation_id user p (suc n) s = first_unread conversation_id user (read_of p) s

unfoldable pub get_room_meta : ℕ → (user : String) → Exec RoomMeta
unfolding compute_room_receipts get_unread_count first_unread shown_name
get_room_meta conversation_id user = do
  assert_active_member conversation_id user false
  row ← find_conversation conversation_id
  room ← found row not_found
  p ← find_participant room.id user
  receipts ← compute_room_receipts room.id
  unread ← get_unread_count room.id user
  first ← reads (anchor room.id user p unread)
  name ← reads (shown_name room user)
  members ← reads (members_of room.id)
  pure (record {
    room = room;
    name = name;
    my_role = role_of p;
    member_count = length members;
    last_read_at = read_of p;
    unread_count = unread;
    first_unread_message_id = first;
    receipts = receipts;
  })

unfoldable pub get_room_for_user : Env → (user : String) → Exec RoomMeta
unfolding get_or_create_common_room get_room_meta
get_room_for_user env user = do
  room ← get_or_create_common_room env
  ensure_membership room.id user ChatParticipantRole.member
  get_room_meta room.id user
