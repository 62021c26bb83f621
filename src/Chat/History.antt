-- ===== src/Chat/History.antt =====
-- Reading messages in backend/src/modules/chat/chat.service.ts: getMessages, getNewerMessages,
-- getMessagesAround, searchMessages, getPinnedMessages, getStarredMessages. A `cursor` with `skip: 1`
-- starts behind the row of that identifier, and an unknown one gives no row.
use bravi_ai.Chat.Members.{assert_active_member}
use bravi_ai.Chat.Receipts.{is_hidden_from}
use bravi_ai.Chat.Messages.{message_by}
use bravi_ai.Outbound.Processor.{includes_text}
use bravi_ai.Prelude.{
  ℕ, suc, Bool, false, not, ◌&&◌, String, Option, none, some, List, [], ◌∷◌, ◌++◌, ◌==◌, ltb,
  str_eq, or_else, is_some, if◌then◌else◌, find_first, find_many, length, take, reverse,
}
use bravi_ai.Data.{ChatMessage, World}
use bravi_ai.Exec.{Exec, reads, found, ◌>>=◌, ◌>>◌, not_found}
use bravi_ai.Text.{trim, to_lower_case}

-- where: { conversationId, NOT: { deletedFor: { has: userId } } }
abbrev pub is_visible : ℕ → String → ChatMessage → Bool
is_visible conversation_id user m =
    m.conversation_id == conversation_id && not (is_hidden_from m.deleted_for user)

abbrev pub written_at : ChatMessage → ℕ
written_at m = m.created_at

-- The order in which the database gives the rows of a query.
abbrev pub RowOrder : Type 0
RowOrder = List ChatMessage → List ChatMessage

-- orderBy: { createdAt: 'desc' }. Messages of one time come in any order, which may differ in the next
-- request; 'asc' is the reverse.
unfoldable pub newest_first : RowOrder → (ChatMessage → Bool) → World → List ChatMessage
newest_first order p s = order (find_many p s.chat.messages)

module _ {ℓ} {A : Type ℓ} where
  unfoldable pub behind : (A → ℕ) → ℕ → List A → List A
  behind id cursor [] = []
  behind id cursor (a ∷ rows) =
      let rest = behind id cursor rows in if id a == cursor then rows else rest

  abbrev pub after_cursor : (A → ℕ) → Option ℕ → List A → List A
  after_cursor id none rows = rows
  after_cursor id (some cursor) rows = behind id cursor rows

  -- The identifier of the last row.
  unfoldable pub last_id : (A → ℕ) → List A → Option ℕ
  last_id id [] = none
  last_id id (a ∷ rows) = some (or_else (last_id id rows) (id a))

  -- A page of `limit` rows, the identifier of its last row and whether rows are left: what the
  -- methods make of `limit + 1` rows.
  unfoldable pub page : (A → ℕ) → ℕ → List A → List A × Option ℕ × Bool
  unfolding last_id
  page id limit rows =
      let fetched = take (suc limit) rows in
      let has_more = ltb limit (length fetched) in
      let shown = if has_more then take limit fetched else fetched in
      (shown, if has_more then last_id id shown else none, has_more)

pub record MessagePage : Type 0 where
  pub messages : List ChatMessage
  pub next_cursor : Option ℕ
  pub has_more : Bool

abbrev pub message_id : ChatMessage → ℕ
message_id m = m.id

abbrev pub default_page_size : ℕ
default_page_size = 30

abbrev pub older_page : ℕ → Option ℕ → List ChatMessage → MessagePage
older_page limit cursor rows =
    let (shown, next, more) = page message_id limit (after_cursor message_id cursor rows) in
    record { messages = reverse shown; next_cursor = next; has_more = more }

unfoldable pub get_messages :
    RowOrder → ℕ → (cursor : Option ℕ) → (limit : Option ℕ) → (user : String) → Exec MessagePage
unfolding newest_first behind page is_hidden_from
get_messages order conversation_id cursor limit user = do
  assert_active_member conversation_id user false
  reads λ s.
      older_page (or_else limit default_page_size) cursor
        (newest_first order (is_visible conversation_id user) s)

abbrev pub newer_page : ℕ → ℕ → List ChatMessage → MessagePage
newer_page limit cursor rows =
    let (shown, next, more) = page message_id limit (behind message_id cursor rows) in
    record {
      messages = shown;
      next_cursor = some (or_else (last_id message_id shown) cursor);
      has_more = more;
    }

unfoldable pub get_newer_messages :
    RowOrder → ℕ → (cursor limit : ℕ) → (user : String) → Exec MessagePage
unfolding newest_first behind page is_hidden_from last_id
get_newer_messages order conversation_id cursor limit user = do
  assert_active_member conversation_id user false
  reads λ s.
      newer_page limit cursor (reverse (newest_first order (is_visible conversation_id user) s))

pub record Around : Type 0 where
  pub messages : List ChatMessage
  pub has_more_older : Bool
  pub has_more_newer : Bool

abbrev pub around : ℕ → ℕ → ChatMessage → (desc asc : List ChatMessage) → Around
around before after target desc asc =
    let older = take before (behind message_id target.id desc) in
    let newer = take after (behind message_id target.id asc) in
    record {
      messages = reverse older ++ (target ∷ newer);
      has_more_older = length older == before;
      has_more_newer = length newer == after;
    }

unfoldable pub get_messages_around :
    (older newer : RowOrder)
    → (conversation_id message_id before after : ℕ) → (user : String) → Exec Around
unfolding newest_first behind is_hidden_from
get_messages_around older newer conversation_id id before after user = do
  assert_active_member conversation_id user false
  row ← reads λ s.
      find_first (λ (m : ChatMessage). message_by id m && is_visible conversation_id user m)
        s.chat.messages
  target ← found row not_found
  reads λ s.
      around before after target (newest_first older (is_visible conversation_id user) s)
        (reverse (newest_first newer (is_visible conversation_id user) s))

-- content: { contains: term, mode: 'insensitive' }
abbrev pub mentions : String → ChatMessage → Bool
mentions term m =
    is_some m.content && includes_text (to_lower_case (or_else m.content "")) (to_lower_case term)

unfoldable pub search_messages :
    RowOrder → ℕ → (q : String) → (limit : ℕ) → (user : String) → Exec (List ChatMessage)
unfolding newest_first is_hidden_from
search_messages order conversation_id q limit user = do
  assert_active_member conversation_id user false
  reads λ s.
      if str_eq (trim q) ""
      then []
      else take limit (
          newest_first order
            (λ m. is_visible conversation_id user m && (not m.is_deleted && mentions (trim q) m)) s)

unfoldable pub get_pinned_messages : RowOrder → ℕ → (user : String) → Exec (List ChatMessage)
unfolding newest_first is_hidden_from
get_pinned_messages order conversation_id user = do
  assert_active_member conversation_id user false
  reads λ s. reverse (
      newest_first order
        (λ m. is_visible conversation_id user m && (not m.is_deleted && m.is_pinned)) s)

unfoldable pub get_starred_messages : RowOrder → ℕ → (user : String) → Exec (List ChatMessage)
unfolding newest_first is_hidden_from
get_starred_messages order conversation_id user = do
  assert_active_member conversation_id user false
  reads λ s.
      newest_first order
        (λ m. is_visible conversation_id user m && (not m.is_deleted && m.is_starred)) s
