-- ===== src/Store.antt =====
-- The Prisma calls that the services share, and nextContactSeq of
-- backend/src/common/utils/conversation-seq.util.ts.
use bravi_ai.Prelude.{
  ℕ, ◌+◌, Bool, true, false, ◌&&◌, String, Option, none, some, List, [], ◌∷◌, ◌++◌, ◌==◌, str_eq,
  if◌then◌else◌, find_first, update_where,
}
use bravi_ai.Data.{
  EnquiryStatus, Contact, ContactChannel, User, Enquiry, Message, TimelineEntry, World,
  MessageChannel, same_channel, InboundMessage,
}
use bravi_ai.Exec.{Exec, pure, reads, writes, found, ◌>>=◌, ◌>>◌, record_missing}

-- `id` of a table
abbrev pub enquiry_by : ℕ → Enquiry → Bool
enquiry_by id e = e.id == id

abbrev pub message_by : ℕ → Message → Bool
message_by id m = m.id == id

abbrev pub contact_by : ℕ → Contact → Bool
contact_by id c = c.id == id

abbrev pub find_enquiry : ℕ → Exec (Option Enquiry)
find_enquiry id = reads λ s. find_first (enquiry_by id) s.enquiries

abbrev pub find_contact : ℕ → Exec (Option Contact)
find_contact id = reads λ s. find_first (contact_by id) s.contacts

abbrev pub find_user : String → Exec (Option User)
find_user id = reads λ s. find_first (λ u. str_eq u.id id) s.users

abbrev pub find_message : ℕ → Exec (Option Message)
find_message id = reads λ s. find_first (message_by id) s.messages

abbrev pub find_inbound : ℕ → Exec (Option InboundMessage)
find_inbound id = reads λ s. find_first (λ (m : InboundMessage). m.id == id) s.inbox

-- status: { notIn: ['CONVERTED', 'CLOSED_LOST'] }
abbrev pub is_open : EnquiryStatus → Bool
is_open EnquiryStatus.converted = false
is_open EnquiryStatus.closed_lost = false
is_open _ = true

abbrev pub open_for : ℕ → Enquiry → Bool
open_for contact_id e = e.contact_id == contact_id && is_open e.status

-- enquiry.findFirst, with no order: the first in the table stands for the row that comes.
abbrev pub find_open_enquiry : ℕ → Exec (Option Enquiry)
find_open_enquiry contact_id = reads λ s. find_first (open_for contact_id) s.enquiries

-- enquiry.update: @updatedAt is set, and a missing row is refused.
abbrev pub stamp : ℕ → (Enquiry → Enquiry) → Enquiry → Enquiry
stamp now f e = record (f e) { updated_at = now }

abbrev pub put_enquiry : ℕ → ℕ → (Enquiry → Enquiry) → World → World
put_enquiry now id f s = record s {
  enquiries = update_where (enquiry_by id) (stamp now f) s.enquiries;
}

abbrev pub update_enquiry : ℕ → ℕ → (Enquiry → Enquiry) → Exec Enquiry
update_enquiry now id f = do
  old ← find_enquiry id
  e ← found old record_missing
  writes (put_enquiry now id f)
  pure (stamp now f e)

abbrev pub create_enquiry : Enquiry → Exec (Unit {0})
create_enquiry e = writes λ s. record s { enquiries = e ∷ s.enquiries }

abbrev pub create_message : Message → Exec Message
create_message m = do writes λ s. record s { messages = m ∷ s.messages }; pure m

abbrev pub put_message : ℕ → (Message → Message) → World → World
put_message id f s = record s { messages = update_where (message_by id) f s.messages }

abbrev pub update_message : ℕ → (Message → Message) → Exec (Unit {0})
update_message id f = do
  old ← find_message id
  m ← found old record_missing
  writes (put_message id f)

abbrev pub add_timeline : List TimelineEntry → Exec (Unit {0})
add_timeline entries = writes λ s. record s { timeline = entries ++ s.timeline }

-- Increments Contact.lastMessageSeq and returns the new value.
abbrev pub next_contact_seq : ℕ → Exec ℕ
next_contact_seq contact_id = do
  old ← find_contact contact_id
  c ← found old record_missing
  writes λ s. record s {
    contacts =
        update_where (contact_by contact_id)
          (λ c. record c { last_message_seq = c.last_message_seq + 1 }) s.contacts;
  }
  pure (c.last_message_seq + 1)

-- a text that JavaScript takes for true
abbrev pub truthy : Option String → Option String
truthy none = none
truthy (some t) = if str_eq t "" then none else some t

-- t || default
abbrev pub or_text : Option String → String → String
or_text none d = d
or_text (some t) d = if str_eq t "" then d else t

-- contact.channels.find((c) => c.channel === channel)
abbrev pub find_channel : MessageChannel → List ContactChannel → Option ContactChannel
find_channel channel = find_first (λ (c : ContactChannel). same_channel c.channel channel)

abbrev pub channels_of : Option Contact → List ContactChannel
channels_of none = []
channels_of (some c) = c.channels

-- A column that an undefined value leaves as it is.
abbrev pub keep_text : Option String → Option String → Option String
keep_text none old = old
keep_text (some t) old = some t
