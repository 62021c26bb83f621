-- ===== src/Messaging/Thread.antt =====
-- getThread of backend/src/modules/messaging/messaging.service.ts. The enquiries come in the order of
-- the table, the newest first, as by their times of creation.
use bravi_ai.Store.{find_contact}
use bravi_ai.Exec.{Exec, ◌>>=◌, found, not_found, reads}
use bravi_ai.Data.{
  Contact, EnquiryStatus, Message, World, EnquiryType, Enquiry, ContactChannel, EnquiryIntent,
}
use bravi_ai.Prelude.{
  ℕ, List, String, Option, Bool, reverse, map, ◌==◌, sort_desc, length, find_many, ◌&&◌,
}
use bravi_ai.Messaging.Conversations.{any_row, by_primary}

pub record ThreadContact : Type 0 where
  pub id : ℕ
  pub display_name : String
  pub organization : Option String
  pub channels : List ContactChannel

pub record ThreadEnquiry : Type 0 where
  pub enquiry_id : ℕ
  pub status : EnquiryStatus
  pub type : EnquiryType
  pub intent : Option EnquiryIntent
  pub tags : List String
  pub assigned_to : Option String
  pub message_count : ℕ
  pub last_activity_at : ℕ
  pub messages : List Message

pub record Thread : Type 0 where
  pub contact : ThreadContact
  pub enquiries : List ThreadEnquiry

abbrev pub in_enquiry : ℕ → Message → Bool
in_enquiry id m = m.enquiry_id == id

-- orderBy: { seq: 'asc' }
unfoldable pub thread_messages : ℕ → List Message → List Message
thread_messages id ms = reverse (sort_desc (λ (m : Message). m.seq) (find_many (in_enquiry id) ms))

abbrev pub thread_enquiry : List Message → Enquiry → ThreadEnquiry
thread_enquiry ms e = record {
  enquiry_id = e.id;
  status = e.status;
  type = e.type;
  intent = e.intent;
  tags = e.tags;
  assigned_to = e.assigned_to_id;
  message_count = length (find_many (in_enquiry e.id) ms);
  last_activity_at = e.last_activity_at;
  messages = thread_messages e.id ms;
}

-- messages: { some: {} }
abbrev pub is_in_thread : ℕ → List Message → Enquiry → Bool
is_in_thread contact_id ms e = e.contact_id == contact_id && any_row (in_enquiry e.id) ms

abbrev pub thread_of : Contact → World → Thread
thread_of c s = record {
  contact = record {
    id = c.id;
    display_name = c.display_name;
    organization = c.organization;
    channels = by_primary c.channels;
  };
  enquiries =
      map (thread_enquiry s.messages) (find_many (is_in_thread c.id s.messages) s.enquiries);
}

unfoldable pub get_thread : ℕ → Exec Thread
unfolding any_row thread_messages
get_thread contact_id = do
  row ← find_contact contact_id
  c ← found row not_found
  reads λ s. thread_of c s
