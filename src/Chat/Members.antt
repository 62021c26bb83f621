-- ===== src/Chat/Members.antt =====
-- Conversations and their members in backend/src/modules/chat/chat.service.ts: getOrCreateCommonRoom,
-- ensureMembership, isActiveMember, assertActiveMember, getActiveMemberIds. Calls run one at a time,
-- so the retry on P2002 is not reached.
use bravi_ai.Prelude.{
  ℕ, Bool, true, false, not, ◌&&◌, String, Option, none, some, List, ◌∷◌, map, ◌==◌, str_eq,
  or_else, is_some, if◌then◌else◌, find_first, find_many, update_where,
}
use bravi_ai.Data.{
  Chat, ChatConversation, ChatConversationType, ChatParticipant, ChatParticipantRole, World, Env,
  conversation_updated,
}
use bravi_ai.Exec.{Exec, pure, reads, writes, throw_if, emit, ◌>>=◌, ◌>>◌, forbidden}

abbrev pub common_room_key : String
common_room_key = "COMMON_ROOM"

abbrev pub put_chat : (Chat → Chat) → Exec (Unit {0})
put_chat f = writes λ s. record s { chat = f s.chat }

abbrev pub conversation_by : ℕ → ChatConversation → Bool
conversation_by id c = c.id == id

abbrev pub find_conversation : ℕ → Exec (Option ChatConversation)
find_conversation id = reads λ s. find_first (conversation_by id) s.chat.conversations

abbrev pub has_key : String → ChatConversation → Bool
has_key key c = str_eq (or_else c.key "") key && is_some c.key

abbrev pub find_by_key : String → Exec (Option ChatConversation)
find_by_key key = reads λ s. find_first (has_key key) s.chat.conversations

abbrev pub add_conversation : ChatConversation → Chat → Chat
add_conversation c t = record t { conversations = c ∷ t.conversations }

abbrev pub common_room : Env → ChatConversation
common_room env = record {
  id = env.row_id;
  type = ChatConversationType.group;
  name = some "Team Chat";
  key = some common_room_key;
  description = none;
  archived_at = none;
  created_by = none;
  last_message_at = none;
}

abbrev pub room_or_new : Env → Option ChatConversation → Exec ChatConversation
room_or_new env (some c) = pure c
room_or_new env none = do put_chat (add_conversation (common_room env)); pure (common_room env)

unfoldable pub get_or_create_common_room : Env → Exec ChatConversation
get_or_create_common_room env = do existing ← find_by_key common_room_key; room_or_new env existing

-- conversationId_userId
abbrev pub participant_by : ℕ → String → ChatParticipant → Bool
participant_by conversation_id user p =
    p.conversation_id == conversation_id && str_eq p.user_id user

abbrev pub find_participant : ℕ → String → Exec (Option ChatParticipant)
find_participant conversation_id user =
    reads λ s. find_first (participant_by conversation_id user) s.chat.participants

abbrev pub new_participant : ℕ → String → ChatParticipantRole → ChatParticipant
new_participant conversation_id user role = record {
  conversation_id = conversation_id;
  user_id = user;
  role = role;
  last_read_at = none;
  last_delivered_at = none;
  is_active = true;
}

abbrev pub activate : ChatParticipant → ChatParticipant
activate p = record p { is_active = true }

-- The upsert on the pair.
abbrev pub upsert_participant : ℕ → String → ChatParticipantRole → Chat → Chat
upsert_participant conversation_id user role t = record t {
  participants =
      if is_some (find_first (participant_by conversation_id user) t.participants)
      then update_where (participant_by conversation_id user) activate t.participants
      else new_participant conversation_id user role ∷ t.participants;
}

unfoldable pub ensure_membership : ℕ → (user : String) → ChatParticipantRole → Exec (Unit {0})
ensure_membership conversation_id user role =
    put_chat (upsert_participant conversation_id user role)

abbrev pub active : Option ChatParticipant → Bool
active none = false
active (some p) = p.is_active

unfoldable pub is_active_member : ℕ → String → Exec Bool
is_active_member conversation_id user = do
  p ← find_participant conversation_id user
  pure (active p)

abbrev pub is_admin_role : ChatParticipantRole → Bool
is_admin_role ChatParticipantRole.admin = true
is_admin_role ChatParticipantRole.member = false

abbrev pub is_admin : Option ChatParticipant → Bool
is_admin none = false
is_admin (some p) = is_admin_role p.role

unfoldable pub assert_active_member : ℕ → (user : String) → (needs_admin : Bool) → Exec (Unit {0})
assert_active_member conversation_id user needs_admin = do
  p ← find_participant conversation_id user
  throw_if (not (active p)) forbidden
  throw_if (needs_admin && not (is_admin p)) forbidden

-- where: { conversationId, isActive: true }
abbrev pub is_active_in : ℕ → ChatParticipant → Bool
is_active_in conversation_id p = p.conversation_id == conversation_id && p.is_active

unfoldable pub active_member_ids : ℕ → World → List String
active_member_ids conversation_id s =
    map (λ (p : ChatParticipant). p.user_id)
      (find_many (is_active_in conversation_id) s.chat.participants)

unfoldable pub get_active_member_ids : ℕ → Exec (List String)
unfolding active_member_ids
get_active_member_ids conversation_id = reads (active_member_ids conversation_id)

unfoldable pub emit_conversation_updated : ℕ → Exec (Unit {0})
unfolding get_active_member_ids
emit_conversation_updated conversation_id = do
  ids ← get_active_member_ids conversation_id
  emit (conversation_updated conversation_id ids)
