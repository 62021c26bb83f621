-- ===== src/Chat/Reactions.antt =====
-- toggleReaction and uploadAttachment of backend/src/modules/chat/chat.service.ts. The unique
-- (message, user, emoji) makes the insertion fail, and the toggle remove, when the row is there. The
-- storage service gives an upload's key and address.
use bravi_ai.Chat.Members.{put_chat, assert_active_member}
use bravi_ai.Chat.Messages.{message_by}
use bravi_ai.Outbound.Draft.Attachments.{Upload, mime_kinds, uploaded_file}
use bravi_ai.Prelude.{
  ℕ, Bool, false, not, ◌&&◌, ◌||◌, String, List, [], ◌∷◌, ◌==◌, str_eq, is_some, if◌then◌else◌,
  find_first, find_many, delete_where,
}
use bravi_ai.Data.{ChatMessage, ChatMessageReaction, AttachmentKind, File, chat_reacted}
use bravi_ai.Exec.{
  Exec, pure, reads, writes, found, throw_if, emit, ◌>>=◌, ◌>>◌, bad_request, not_found,
}

abbrev pub reaction_by : ℕ → (user emoji : String) → ChatMessageReaction → Bool
reaction_by id user emoji r =
    r.chat_message_id == id && (str_eq r.user_id user && str_eq r.emoji emoji)

abbrev pub has_reacted : ℕ → (user emoji : String) → List ChatMessageReaction → Bool
has_reacted id user emoji rs = is_some (find_first (reaction_by id user emoji) rs)

abbrev pub flip_reaction :
    ℕ → (user emoji : String) → List ChatMessageReaction → List ChatMessageReaction
flip_reaction id user emoji rs =
    if has_reacted id user emoji rs
    then delete_where (reaction_by id user emoji) rs
    else record { chat_message_id = id; user_id = user; emoji = emoji } ∷ rs

-- { id: messageId, conversationId, isDeleted: false }
abbrev pub is_live : (conversation_id message_id : ℕ) → ChatMessage → Bool
is_live conversation_id id m =
    message_by id m && (m.conversation_id == conversation_id && not m.is_deleted)

unfoldable pub toggle_reaction :
    (conversation_id message_id : ℕ) → (user emoji : String) → Exec (List ChatMessageReaction)
toggle_reaction conversation_id id user emoji = do
  assert_active_member conversation_id user false
  row ← reads λ s. find_first (is_live conversation_id id) s.chat.messages
  m ← found row not_found
  old ← reads λ s. has_reacted id user emoji s.chat.reactions
  put_chat λ t. record t { reactions = flip_reaction id user emoji t.reactions }
  emit (chat_reacted conversation_id id user emoji (not old))
  reads λ s. find_many (λ (r : ChatMessageReaction). r.chat_message_id == id) s.chat.reactions

-- MIME_TO_KIND[file.mimetype]
unfoldable pub mime_known : List (String × AttachmentKind) → String → Bool
mime_known [] mime = false
mime_known ((m, k) ∷ rest) mime = str_eq m mime || mime_known rest mime

unfoldable pub upload_attachment : ℕ → (user : String) → Upload → Exec File
unfolding mime_known
upload_attachment conversation_id user u = do
  assert_active_member conversation_id user false
  throw_if (not (mime_known mime_kinds u.mime)) bad_request
  writes λ s. record s { storage = u.key ∷ s.storage }
  pure (uploaded_file u)
