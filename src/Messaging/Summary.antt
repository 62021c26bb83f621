-- ===== src/Messaging/Summary.antt =====
-- getContactSummary and getUnreadSummary of backend/src/modules/messaging/messaging.service.ts
use mathlib.Core.Option
use bravi_ai.Enquiry.Notes.{member}
use bravi_ai.Store.{contact_by}
use bravi_ai.Text.{prefix}
use bravi_ai.Data.{Message, Contact, MessageChannel, World, MessageDirection, same_channel}
use bravi_ai.Prelude.{
  String, ℕ, Option, List, Bool, some, none, ◌∷◌, find_many, ◌==◌, if◌then◌else◌, false, [], leb,
  ltb, ◌&&◌, find_first, suc,
}

pub record ContactSummary : Type 0 where
  pub last_message_preview : String
  pub last_message_at : Option ℕ
  pub last_message_channel : Option MessageChannel
  pub last_message_direction : Option MessageDirection
  pub last_message_seq : ℕ
  pub last_read_seq : ℕ

abbrev pub sent_with : ℕ → Message → Bool
sent_with contact_id m = m.contact_id == contact_id

-- orderBy: { seq: 'desc' }, first row
abbrev pub higher_seq : Message → Option Message → Option Message
higher_seq m none = some m
higher_seq m (some n) = if leb n.seq m.seq then some m else some n

unfoldable pub latest_message : ℕ → List Message → Option Message
latest_message contact_id [] = none
latest_message contact_id (m ∷ ms) =
    let rest = latest_message contact_id ms in
    if sent_with contact_id m then higher_seq m rest else rest

abbrev pub preview : Option Message → String
preview none = ""
preview (some m) = prefix 80 m.content

abbrev pub summary_row : Contact → Option Message → ContactSummary
summary_row c latest = record {
  last_message_preview = preview latest;
  last_message_at = Option.map (λ (m : Message). m.created_at) latest;
  last_message_channel = Option.map (λ (m : Message). m.channel) latest;
  last_message_direction = Option.map (λ (m : Message). m.direction) latest;
  last_message_seq = c.last_message_seq;
  last_read_seq = c.last_read_seq;
}

-- No exception: a contact that is missing has no summary.
unfoldable pub get_contact_summary : ℕ → World → Option ContactSummary
unfolding latest_message prefix
get_contact_summary contact_id s =
    Option.map (λ (c : Contact). summary_row c (latest_message contact_id s.messages))
      (find_first (contact_by contact_id) s.contacts)

-- JOIN "Contact" c ON c.id = cm."contactId" WHERE cm.seq > c."lastReadSeq"
abbrev pub behind_read : ℕ → Option Contact → Bool
behind_read seq none = false
behind_read seq (some c) = ltb c.last_read_seq seq

abbrev pub is_unread : MessageChannel → List Contact → Message → Bool
is_unread channel cs m =
    same_channel m.channel channel && behind_read m.seq (find_first (contact_by m.contact_id) cs)

abbrev pub contact_ids : List Message → List ℕ
contact_ids [] = []
contact_ids (m ∷ ms) = m.contact_id ∷ contact_ids ms

-- COUNT(DISTINCT x)
unfoldable pub count_distinct : List ℕ → ℕ
count_distinct [] = 0
count_distinct (x ∷ xs) = let rest = count_distinct xs in if member xs x then rest else suc rest

-- The row of one channel; a channel without a row keeps 0.
abbrev pub unread_contacts : MessageChannel → World → ℕ
unread_contacts channel s =
    count_distinct (contact_ids (find_many (is_unread channel s.contacts) s.messages))

pub record UnreadSummary : Type 0 where
  pub email : ℕ
  pub whatsapp : ℕ
  pub sms : ℕ

unfoldable pub get_unread_summary : World → UnreadSummary
unfolding count_distinct
get_unread_summary s = record {
  email = unread_contacts MessageChannel.email s;
  whatsapp = unread_contacts MessageChannel.whatsapp s;
  sms = unread_contacts MessageChannel.sms s;
}
