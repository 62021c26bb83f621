-- ===== src/Chat/Channels.antt =====
-- Channels and direct messages in backend/src/modules/chat/chat.service.ts: createChannel,
-- updateChannel, addMembers, removeMember, openDm. addMembers answers with the list of members, which
-- is left out, but not its check of membership.
use bravi_ai.Chat.Members.{
  put_chat, conversation_by, find_conversation, find_by_key, participant_by, assert_active_member,
  ensure_membership, new_participant, add_conversation, emit_conversation_updated, common_room_key,
  has_key,
}
use bravi_ai.Chat.Receipts.{is_direct}
use bravi_ai.Prelude.{
  ℕ, Bool, true, false, not, ◌&&◌, ◌||◌, String, Option, none, some, List, [], ◌∷◌, ◌++◌, map,
  str_eq, or_else, if◌then◌else◌, find_first, find_many, update_where,
}
use bravi_ai.Data.{
  Chat, ChatConversation, ChatConversationType, ChatParticipant, ChatParticipantRole, Env, User,
  World, membership_removed,
}
use bravi_ai.Exec.{
  Exec, pure, reads, found, throw_if, transaction, emit, ◌>>=◌, ◌>>◌, bad_request, not_found,
}
use bravi_ai.Text.{text_leb, concat}

unfoldable pub text_in : List String → String → Bool
text_in [] t = false
text_in (x ∷ xs) t = str_eq x t || text_in xs t

-- user.findMany: id in the list, isActive
abbrev pub valid_users : List String → World → List User
valid_users ids s = find_many (λ (u : User). text_in ids u.id && u.is_active) s.users

-- `new Set(memberIds)` without the creator: a query by `id: { in }` does not see repetitions.
abbrev pub requested : String → List String → List String
requested creator ids = find_many (λ id. not (str_eq id creator)) ids

abbrev pub channel_of : Env → String → (name : String) → Option String → ChatConversation
channel_of env creator name description = record {
  id = env.row_id;
  type = ChatConversationType.group;
  name = some name;
  key = none;
  description = description;
  archived_at = none;
  created_by = some creator;
  last_message_at = none;
}

abbrev pub join_all : ℕ → List User → List ChatParticipant
join_all id users = map (λ (u : User). new_participant id u.id ChatParticipantRole.member) users

abbrev pub add_participants : List ChatParticipant → Chat → Chat
add_participants ps t = record t { participants = ps ++ t.participants }

unfoldable pub create_channel :
    Env
    → (creator name : String) → (description : Option String) → (members : List String)
    → Exec ChatConversation
unfolding text_in
create_channel env creator name description members = do
  users ← reads (valid_users (requested creator members))
  let c = channel_of env creator name description
  transaction do
    put_chat (add_conversation c)
    put_chat (add_participants (new_participant c.id creator ChatParticipantRole.admin ∷ []))
    put_chat (add_participants (join_all c.id users))
  emit_conversation_updated c.id
  pure c

pub record UpdateChannel : Type 0 where
  pub name : Option String
  pub description : Option String
  pub archived : Option Bool

abbrev pub archive_time : ℕ → Option Bool → Option ℕ → Option ℕ
archive_time now none old = old
archive_time now (some true) old = some now
archive_time now (some false) old = none

abbrev pub keep : Option String → Option String → Option String
keep none old = old
keep (some t) old = some t

abbrev pub edit_channel : ℕ → UpdateChannel → ChatConversation → ChatConversation
edit_channel now input c = record c {
  name = keep input.name c.name;
  description = keep input.description c.description;
  archived_at = archive_time now input.archived c.archived_at;
}

abbrev pub assert_admin : ℕ → String → (bypass : Bool) → Exec (Unit {0})
assert_admin id user true = pure tt
assert_admin id user false = assert_active_member id user true

abbrev pub is_common : ChatConversation → Bool
is_common c = has_key common_room_key c

unfoldable pub update_channel :
    Env → ℕ → (user : String) → UpdateChannel → (bypass_admin : Bool) → Exec ChatConversation
update_channel env id user input bypass = do
  row ← find_conversation id
  c ← found row not_found
  throw_if (is_direct c.type) bad_request
  assert_admin id user bypass
  throw_if (or_else input.archived false && is_common c) bad_request
  put_chat λ t. record t {
    conversations = update_where (conversation_by id) (edit_channel env.now input) t.conversations;
  }
  emit_conversation_updated id
  pure (edit_channel env.now input c)

-- for (const u of validUsers) await ensureMembership(...)
unfoldable pub ensure_all : ℕ → List User → Exec (Unit {0})
ensure_all id [] = pure tt
ensure_all id (u ∷ users) =
    ensure_membership id u.id ChatParticipantRole.member >> ensure_all id users

unfoldable pub add_members :
    ℕ → (actor : String) → List String → (bypass_admin : Bool) → Exec (Unit {0})
unfolding text_in ensure_all
add_members id actor ids bypass = do
  row ← find_conversation id
  c ← found row not_found
  throw_if (is_direct c.type) bad_request
  assert_admin id actor bypass
  users ← reads (valid_users ids)
  ensure_all id users
  emit_conversation_updated id
  assert_active_member id actor false

abbrev pub deactivate : ChatParticipant → ChatParticipant
deactivate p = record p { is_active = false }

abbrev pub assert_may_remove : ℕ → (actor target : String) → (bypass : Bool) → Exec (Unit {0})
assert_may_remove id actor target bypass =
    if str_eq actor target then pure tt else assert_admin id actor bypass

unfoldable pub remove_member : ℕ → (actor target : String) → (bypass_admin : Bool) → Exec (Unit {0})
remove_member id actor target bypass = do
  row ← find_conversation id
  c ← found row not_found
  throw_if (is_direct c.type) bad_request
  throw_if (is_common c) bad_request
  assert_may_remove id actor target bypass
  put_chat λ t. record t {
    participants = update_where (participant_by id target) deactivate t.participants;
  }
  emit (membership_removed id target)
  emit_conversation_updated id

-- DM:${[userId, otherUserId].sort().join(':')}
unfoldable pub dm_key : String → String → String
unfolding text_leb
dm_key a b =
    if text_leb a b
    then concat "DM:" (concat a (concat ":" b))
    else concat "DM:" (concat b (concat ":" a))

abbrev pub dm_of : Env → String → String → ChatConversation
dm_of env user key = record {
  id = env.row_id;
  type = ChatConversationType.direct;
  name = none;
  key = some key;
  description = none;
  archived_at = none;
  created_by = some user;
  last_message_at = none;
}

abbrev pub is_active_user : Option User → Bool
is_active_user none = false
is_active_user (some u) = u.is_active

unfoldable pub create_dm : Env → (user other key : String) → Exec ChatConversation
create_dm env user other key = do
  let c = dm_of env user key
  transaction do
    put_chat (add_conversation c)
    put_chat (
        add_participants (
          new_participant c.id user ChatParticipantRole.member
          ∷ new_participant c.id other ChatParticipantRole.member
          ∷ []))
  emit_conversation_updated c.id
  pure c

abbrev pub dm_or_new :
    Env → (user other key : String) → Option ChatConversation → Exec ChatConversation
dm_or_new env user other key none = create_dm env user other key
dm_or_new env user other key (some c) = do
  ensure_membership c.id user ChatParticipantRole.member
  ensure_membership c.id other ChatParticipantRole.member
  pure c

unfoldable pub open_dm : Env → (user other : String) → Exec ChatConversation
unfolding create_dm
open_dm env user other = do
  throw_if (str_eq user other) bad_request
  account ← reads λ s. find_first (λ (u : User). str_eq u.id other) s.users
  throw_if (not (is_active_user account)) not_found
  existing ← find_by_key (dm_key user other)
  dm_or_new env user other (dm_key user other) existing
