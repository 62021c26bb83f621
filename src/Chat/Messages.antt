-- ===== src/Chat/Messages.antt =====
-- Writing messages in backend/src/modules/chat/chat.service.ts: sendMessage, editMessage,
-- deleteMessageForEveryone, deleteMessageForMe, togglePinMessage, toggleStarMessage.
use bravi_ai.Chat.Members.{
  put_chat, conversation_by, find_conversation, participant_by, find_participant,
  assert_active_member,
}
use bravi_ai.Chat.Receipts.{is_hidden_from}
use bravi_ai.Prelude.{
  ℕ, Bool, true, false, not, ◌&&◌, String, Option, none, some, List, [], ◌∷◌, ◌++◌, map, ◌==◌,
  str_eq, or_else, is_some, if◌then◌else◌, find_first, update_where,
}
use bravi_ai.Data.{
  Chat, ChatConversation, ChatMessage, ChatMessageType, File, AttachmentKind, Env, chat_created,
  chat_pinned, chat_starred, chat_edited, chat_deleted,
}
use bravi_ai.Exec.{
  Exec, pure, reads, found, throw_if, transaction, emit, ◌>>=◌, ◌>>◌, bad_request, not_found,
  forbidden, record_missing,
}
use bravi_ai.Store.{truthy}
use bravi_ai.Text.{trim}

pub record ChatInput : Type 0 where
  pub conversation_id : ℕ
  pub sender_id : String
  pub content : Option String
  pub type : Option ChatMessageType
  pub parent_message_id : Option ℕ
  pub attachments : List File

-- input.content?.trim() || null
unfoldable pub trimmed : Option String → Option String
unfolding trim
trimmed none = none
trimmed (some t) = truthy (some (trim t))

abbrev pub no_files : List File → Bool
no_files [] = true
no_files (f ∷ fs) = false

abbrev pub is_image : AttachmentKind → Bool
is_image AttachmentKind.image = true
is_image _ = false

unfoldable pub all_images : List File → Bool
all_images [] = true
all_images (f ∷ fs) = is_image f.kind && all_images fs

unfoldable pub derived_type : ChatInput → Option String → ChatMessageType
unfolding all_images
derived_type input content = or_else input.type (
    if not (no_files input.attachments) && not (is_some content)
    then (if all_images input.attachments then ChatMessageType.image else ChatMessageType.document)
    else ChatMessageType.text)

abbrev pub new_message : Env → ChatInput → Option String → ChatMessage
new_message env input content = record {
  id = env.row_id;
  conversation_id = input.conversation_id;
  sender_id = input.sender_id;
  type = derived_type input content;
  content = content;
  parent_message_id = input.parent_message_id;
  is_pinned = false;
  is_deleted = false;
  deleted_at = none;
  edited_at = none;
  is_starred = false;
  deleted_for = [];
  created_at = env.now;
}

abbrev pub is_archived : Option ChatConversation → Bool
is_archived none = false
is_archived (some c) = is_some c.archived_at

abbrev pub add_message : ChatMessage → List File → Chat → Chat
add_message m files t = record t {
  messages = m ∷ t.messages;
  attachments = map (λ f. record { chat_message_id = m.id; file = f }) files ++ t.attachments;
}

-- chatConversation.update and chatParticipant.update refuse a missing row.
abbrev pub bump_conversation : Env → ℕ → Exec (Unit {0})
bump_conversation env id = do
  row ← find_conversation id
  c ← found row record_missing
  put_chat λ t. record t {
    conversations =
        update_where (conversation_by id) (λ c. record c { last_message_at = some env.now })
          t.conversations;
  }

abbrev pub read_own : Env → ℕ → String → Exec (Unit {0})
read_own env id user = do
  row ← find_participant id user
  p ← found row record_missing
  put_chat λ t. record t {
    participants =
        update_where (participant_by id user) (λ p. record p { last_read_at = some env.now })
          t.participants;
  }

-- The `$transaction` of sendMessage.
unfoldable pub store_message : Env → ChatInput → Option String → Exec ChatMessage
unfolding derived_type
store_message env input content = transaction do
  put_chat (add_message (new_message env input content) input.attachments)
  bump_conversation env input.conversation_id
  read_own env input.conversation_id input.sender_id
  pure (new_message env input content)

unfoldable pub send_message : Env → ChatInput → Exec ChatMessage
unfolding trimmed store_message
send_message env input = do
  let content = trimmed input.content
  throw_if (not (is_some content) && no_files input.attachments) bad_request
  assert_active_member input.conversation_id input.sender_id false
  conversation ← find_conversation input.conversation_id
  throw_if (is_archived conversation) bad_request
  m ← store_message env input content
  emit (chat_created input.conversation_id m.id)
  pure m

abbrev pub message_by : ℕ → ChatMessage → Bool
message_by id m = m.id == id

abbrev pub find_chat_message : ℕ → Exec (Option ChatMessage)
find_chat_message id = reads λ s. find_first (message_by id) s.chat.messages

abbrev pub put_chat_message : ℕ → (ChatMessage → ChatMessage) → Exec (Unit {0})
put_chat_message id f =
    put_chat λ t. record t { messages = update_where (message_by id) f t.messages }

abbrev pub toggle_pinned : ChatMessage → ChatMessage
toggle_pinned m = record m { is_pinned = not m.is_pinned }

-- The room is checked for membership; the message is found by its identifier alone.
unfoldable pub toggle_pin_message : (message_id room_id : ℕ) → (user : String) → Exec ChatMessage
toggle_pin_message id room_id user = do
  assert_active_member room_id user false
  row ← find_chat_message id
  m ← found row not_found
  put_chat_message id (λ x. record x { is_pinned = not m.is_pinned })
  emit (chat_pinned room_id id (not m.is_pinned))
  pure (toggle_pinned m)

abbrev pub toggle_starred : ChatMessage → ChatMessage
toggle_starred m = record m { is_starred = not m.is_starred }

unfoldable pub toggle_star_message : (message_id room_id : ℕ) → (user : String) → Exec ChatMessage
toggle_star_message id room_id user = do
  assert_active_member room_id user false
  row ← find_chat_message id
  m ← found row not_found
  put_chat_message id (λ x. record x { is_starred = not m.is_starred })
  emit (chat_starred room_id id (not m.is_starred))
  pure (toggle_starred m)

abbrev pub edit_content : ℕ → String → ChatMessage → ChatMessage
edit_content now content m = record m { content = some content; edited_at = some now }

unfoldable pub edit_message :
    Env → (message_id : ℕ) → (content user : String) → (room_id : ℕ) → Exec ChatMessage
edit_message env id content user room_id = do
  assert_active_member room_id user false
  row ← find_chat_message id
  m ← found row not_found
  throw_if (not (str_eq m.sender_id user)) forbidden
  throw_if m.is_deleted bad_request
  put_chat_message id (edit_content env.now content)
  emit (chat_edited room_id id content env.now)
  pure (edit_content env.now content m)

abbrev pub delete_content : ℕ → ChatMessage → ChatMessage
delete_content now m = record m {
  is_deleted = true;
  content = some "This message was deleted";
  deleted_at = some now;
}

unfoldable pub delete_message_for_everyone :
    Env → (message_id : ℕ) → (user : String) → (room_id : ℕ) → Exec ChatMessage
delete_message_for_everyone env id user room_id = do
  assert_active_member room_id user false
  row ← find_chat_message id
  m ← found row not_found
  throw_if (not (str_eq m.sender_id user)) forbidden
  put_chat_message id (delete_content env.now)
  emit (chat_deleted room_id id)
  pure (delete_content env.now m)

-- deletedFor: { push: userId }
abbrev pub hide_from : String → ChatMessage → ChatMessage
hide_from user m = record m { deleted_for = m.deleted_for ++ (user ∷ []) }

abbrev pub hide_unless : ℕ → String → ChatMessage → Bool → Exec ChatMessage
hide_unless id user m true = pure m
hide_unless id user m false = do put_chat_message id (hide_from user); pure (hide_from user m)

unfoldable pub delete_message_for_me : (message_id : ℕ) → (user : String) → Exec ChatMessage
unfolding is_hidden_from
delete_message_for_me id user = do
  row ← find_chat_message id
  m ← found row not_found
  assert_active_member m.conversation_id user false
  hide_unless id user m (is_hidden_from m.deleted_for user)
