-- ===== src/Messaging/ReadMark.antt =====
-- handleReadMark and broadcastUnreadSummary of backend/src/websocket/app.gateway.ts. What the socket
-- gets as an answer is the result.
use bravi_ai.Store.{find_contact, contact_by}
use bravi_ai.Exec.{Exec, emit, pure, ◌>>◌, ◌>>=◌, writes}
use bravi_ai.Data.{Contact, unread_summary, read_updated}
use bravi_ai.Messaging.Summary.{get_unread_summary}
use bravi_ai.Prelude.{ℕ, Option, String, some, if◌then◌else◌, leb, none, update_where}

pub data ReadMark : Type 0 where
  not_authenticated contact_id_required contact_not_found : ReadMark
  marked : (last_read_seq : ℕ) → ReadMark

unfoldable pub broadcast_unread_summary : Exec (Unit {0})
unfolding get_unread_summary
broadcast_unread_summary s =
    let sum = get_unread_summary s in emit (unread_summary sum.email sum.whatsapp sum.sms) s

-- SET "lastReadSeq" = "lastMessageSeq"
abbrev pub read_up : Contact → Contact
read_up c = record c { last_read_seq = c.last_message_seq }

-- RETURNING "lastReadSeq"
abbrev pub announce_read : ℕ → Option Contact → Exec ReadMark
announce_read contact_id none = pure contact_not_found
announce_read contact_id (some c) = do
  emit (read_updated contact_id c.last_read_seq)
  broadcast_unread_summary
  pure (marked c.last_read_seq)

abbrev pub catch_up : ℕ → Option Contact → Exec ReadMark
catch_up contact_id none = pure contact_not_found
catch_up contact_id (some c) =
    if leb c.last_message_seq c.last_read_seq then pure (marked c.last_read_seq) else do
      writes λ s. record s { contacts = update_where (contact_by contact_id) read_up s.contacts }
      row ← find_contact contact_id
      announce_read contact_id row

unfoldable pub handle_read_mark : (user : Option String) → (contact_id : Option ℕ) → Exec ReadMark
unfolding broadcast_unread_summary
handle_read_mark none contact_id = pure not_authenticated
handle_read_mark (some user) none = pure contact_id_required
handle_read_mark (some user) (some contact_id) = do
  c ← find_contact contact_id
  catch_up contact_id c
