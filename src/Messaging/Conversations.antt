-- ===== src/Messaging/Conversations.antt =====
-- listConversations of backend/src/modules/messaging/messaging.service.ts. A user is given by its
-- identifier, and the cards' names of users are left out.
use mathlib.Core.Option
use bravi_ai.Enquiry.Notes.{member}
use bravi_ai.Store.{truthy}
use bravi_ai.Text.{to_lower_case}
use bravi_ai.Outbound.Processor.{includes_text}
use bravi_ai.Data.{
  World, MessageChannel, Contact, Message, MessageDirection, ContactChannel, Enquiry, Draft,
  EnquiryStatus, same_channel, same_draft, DraftStatus, Env,
}
use bravi_ai.Prelude.{
  ℕ, Bool, List, String, some, false, none, if◌then◌else◌, ◌∷◌, true, ◌&&◌, sort_desc, ◌==◌, ◌||◌,
  [], find_many, str_eq, ltb, find_first, length, take, ◌+◌, reverse, drop, ◌-◌, or_else, ◌*◌, ◌/◌,
}
use mathlib.Core.Option.{Option}
use bravi_ai.Messaging.Summary.{sent_with, ContactSummary, get_contact_summary}

pub record ConversationQuery : Type 0 where
  pub search : Option String
  pub page : Option ℕ
  pub limit : Option ℕ
  pub channel : Option MessageChannel

-- n || d
abbrev pub or_number : Option ℕ → ℕ → ℕ
or_number none d = d
or_number (some n) d = if n == 0 then d else n

abbrev pub page_of : ConversationQuery → ℕ
page_of query = or_number query.page 1

abbrev pub limit_of : ConversationQuery → ℕ
limit_of query = or_number query.limit 30

module _ {ℓ} {A : Type ℓ} where
  -- some: { ... }
  unfoldable pub any_row : (A → Bool) → List A → Bool
  any_row p [] = false
  any_row p (a ∷ rows) = p a || any_row p rows

  abbrev pub first_row : List A → Option A
  first_row [] = none
  first_row (a ∷ rows) = some a

abbrev pub speaks_on : Option MessageChannel → Message → Bool
speaks_on none m = true
speaks_on (some channel) m = same_channel m.channel channel

-- contains, mode: 'insensitive'
abbrev pub contains : String → String → Bool
contains t term = includes_text (to_lower_case t) (to_lower_case term)

abbrev pub is_found : Option String → Contact → Bool
is_found none c = true
is_found (some term) c =
    contains c.display_name term
    || any_row (λ (ch : ContactChannel). contains ch.identifier term) c.channels

-- where
unfoldable pub is_listed : ConversationQuery → List Message → Contact → Bool
unfolding any_row
is_listed query ms c =
    any_row (λ m. sent_with c.id m && speaks_on query.channel m) ms
    && is_found (truthy query.search) c

abbrev pub listed_rows : ConversationQuery → World → List Contact
listed_rows query s = find_many (is_listed query s.messages) s.contacts

-- orderBy: { lastSeenAt: 'desc' }, the key of the order that the database gives the rows of this
-- request; contacts that were seen at one time come in any order, which may differ in the next one.
abbrev pub seen_at : Contact → ℕ
seen_at c = c.last_seen_at

unfoldable pub listed :
    (order : List Contact → List Contact) → ConversationQuery → World → List Contact
unfolding is_listed
listed order query s = order (listed_rows query s)

pub record DraftCard : Type 0 where
  pub body : Option String
  pub attachment_count : ℕ
  pub channel : MessageChannel

pub record LastMessage : Type 0 where
  pub content : String
  pub direction : Option MessageDirection
  pub channel : Option MessageChannel
  pub created_at : Option ℕ

pub record Conversation : Type 0 where
  pub contact_id : ℕ
  pub contact_name : String
  pub organization : Option String
  pub channel : Option MessageChannel
  pub identifier : Option String
  pub enquiry_id : Option ℕ
  pub enquiry_status : Option EnquiryStatus
  pub assigned_to : Option String
  pub message_count : ℕ
  pub last_message : Option LastMessage
  pub last_activity_at : Option ℕ
  pub last_message_seq : ℕ
  pub last_read_seq : ℕ
  pub draft : Option DraftCard

-- orderBy: { isPrimary: 'desc' }
abbrev pub by_primary : List ContactChannel → List ContactChannel
by_primary = sort_desc λ ch. if ch.is_primary then 1 else 0

-- The enquiry of the card: the most recently active one.
unfoldable pub card_enquiry : ℕ → List Enquiry → Option Enquiry
card_enquiry contact_id es = first_row (
    sort_desc (λ (e : Enquiry). e.last_activity_at)
      (find_many (λ e. e.contact_id == contact_id) es))

abbrev pub written_by : Option String → Draft → Bool
written_by none d = true
written_by (some user) d = str_eq d.created_by user

abbrev pub is_active_draft : ℕ → List ℕ → Option String → Draft → Bool
is_active_draft now enquiry_ids user d =
    member enquiry_ids d.enquiry_id
    && (same_draft d.status DraftStatus.active && (ltb now d.expires_at && written_by user d))

abbrev pub enquiry_ids : List Enquiry → List Contact → List ℕ
enquiry_ids es [] = []
enquiry_ids es (c ∷ cs) = add_id (card_enquiry c.id es) (enquiry_ids es cs)
  where
    add_id : Option Enquiry → List ℕ → List ℕ
    add_id none ids = ids
    add_id (some e) ids = e.id ∷ ids

abbrev pub active_drafts : Env → List ℕ → Option String → World → List Draft
active_drafts env ids user s = find_many (is_active_draft env.now ids user) s.drafts

-- draftByEnquiry.get: of several drafts of an enquiry, the last in the list.
abbrev pub draft_for : List Draft → Option Enquiry → Option Draft
draft_for ds none = none
draft_for ds (some e) = find_first (λ (d : Draft). d.enquiry_id == e.id) (reverse ds)

abbrev pub draft_card : World → Draft → DraftCard
draft_card s d = record {
  body = d.body;
  attachment_count = length (find_many (λ a. a.draft_id == d.id) s.draft_attachments);
  channel = d.channel;
}

abbrev pub last_message_of : ContactSummary → Option LastMessage
last_message_of sum =
    if str_eq sum.last_message_preview ""
    then none
    else some (record {
      content = sum.last_message_preview;
      direction = sum.last_message_direction;
      channel = sum.last_message_channel;
      created_at = sum.last_message_at;
    })

abbrev pub assignee_of : Option Enquiry → Option String
assignee_of none = none
assignee_of (some e) = e.assigned_to_id

abbrev pub conversation_row :
    World
    → List Draft
    → Contact
    → Option Enquiry
    → Option ContactChannel
    → ContactSummary
    → Conversation
conversation_row s ds c enquiry channel sum = record {
  contact_id = c.id;
  contact_name = c.display_name;
  organization = c.organization;
  channel = Option.map (λ (ch : ContactChannel). ch.channel) channel;
  identifier = Option.map (λ (ch : ContactChannel). ch.identifier) channel;
  enquiry_id = Option.map (λ (e : Enquiry). e.id) enquiry;
  enquiry_status = Option.map (λ (e : Enquiry). e.status) enquiry;
  assigned_to = assignee_of enquiry;
  message_count = sum.last_message_seq;
  last_message = last_message_of sum;
  last_activity_at = sum.last_message_at;
  last_message_seq = sum.last_message_seq;
  last_read_seq = sum.last_read_seq;
  draft = Option.map (draft_card s) (draft_for ds enquiry);
}

abbrev pub with_summary :
    (ContactSummary → Conversation) → Option ContactSummary → List Conversation → List Conversation
with_summary row none rest = rest
with_summary row (some sum) rest = row sum ∷ rest

-- .map(...).filter(Boolean)
unfoldable pub conversations_of : World → List Draft → List Contact → List Conversation
conversations_of s ds [] = []
conversations_of s ds (c ∷ cs) =
    with_summary
      (conversation_row s ds c (card_enquiry c.id s.enquiries) (first_row (by_primary c.channels)))
      (get_contact_summary c.id s) (conversations_of s ds cs)

pub record ConversationPage : Type 0 where
  pub data_ : List Conversation
  pub page : ℕ
  pub limit : ℕ
  pub total : ℕ
  pub total_pages : ℕ

-- skip, take
abbrev pub page_rows : ℕ → ℕ → List Contact → List Contact
page_rows page limit cs = take limit (drop ((page - 1) * limit) cs)

-- Math.ceil(total / limit)
abbrev pub pages_for : ℕ → ℕ → ℕ
pages_for total limit = (total + (limit - 1)) / limit

unfoldable pub list_conversations :
    (order : List Contact → List Contact)
    → Env
    → ConversationQuery
    → (user : Option String) → World
    → ConversationPage
unfolding listed is_listed conversations_of card_enquiry
list_conversations order env query user s =
    let cs = page_rows (page_of query) (limit_of query) (listed order query s) in
    let ds = active_drafts env (enquiry_ids s.enquiries cs) user s in
    let total = length (listed_rows query s) in
    record {
      data_ =
          sort_desc (λ (c : Conversation). or_else c.last_activity_at 0) (conversations_of s ds cs);
      page = page_of query;
      limit = limit_of query;
      total = total;
      total_pages = pages_for total (limit_of query);
    }
