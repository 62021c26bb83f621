-- ===== src/Client/ConversationCache.antt =====
-- frontend/lib/cachePatch.ts, with conversationFromNewPayload of frontend/contracts/socketEvents.ts:
-- the lists of conversations that the query cache holds, and the events that patch them. A list is
-- kept for each channel asked for, and one for none. The columns that stay null are left out.
use bravi_ai.Data.{MessageChannel, same_channel}
use bravi_ai.Prelude.{
  ℕ, List, Option, some, String, Bool, find_many, ◌∷◌, find_first, or_else, if◌then◌else◌, ◌==◌,
  not, none, [], true, ◌-◌, false,
}

pub record ConversationRow : Type 0 where
  pub contact_id : ℕ
  pub contact_name : String
  pub last_message_preview : String
  pub last_message_at : ℕ
  pub last_message_channel : MessageChannel
  pub last_message_seq : ℕ
  pub last_read_seq : ℕ
  pub unread_count : ℕ
  pub channels : List MessageChannel

pub record ConversationUpdated : Type 0 where
  pub contact_id : ℕ
  pub last_message_preview : String
  pub last_message_at : ℕ
  pub last_message_channel : MessageChannel
  pub last_message_seq : ℕ
  pub last_read_seq : ℕ

pub record ConversationNew : Type 0 where
  pub contact_id : ℕ
  pub contact_name : String
  pub channel : Option MessageChannel
  pub last_message_preview : String
  pub last_message_at : ℕ
  pub last_message_channel : MessageChannel
  pub last_message_seq : ℕ
  pub last_read_seq : ℕ

abbrev pub Cache : Type 0
Cache = List (Option MessageChannel × List ConversationRow)

abbrev pub same_key : Option MessageChannel → Option MessageChannel → Bool
same_key none none = true
same_key (some a) (some b) = same_channel a b
same_key _ _ = false

-- getQueryData and setQueryData under one key; a list that was never fetched is not made.
unfoldable pub patch_list :
    Option MessageChannel → (List ConversationRow → List ConversationRow) → Cache → Cache
patch_list key f [] = []
patch_list key f ((k, rows) ∷ cache) =
    let rest = patch_list key f cache in
    if same_key k key then (k, f rows) ∷ cache else (k, rows) ∷ rest

abbrev pub row_of : ℕ → ConversationRow → Bool
row_of contact_id c = c.contact_id == contact_id

abbrev pub without : ℕ → List ConversationRow → List ConversationRow
without contact_id rows = find_many (λ c. not (row_of contact_id c)) rows

abbrev pub updated_row : ConversationUpdated → ConversationRow → ConversationRow
updated_row p c = record c {
  last_message_preview = p.last_message_preview;
  last_message_at = p.last_message_at;
  last_message_seq = p.last_message_seq;
  last_read_seq = p.last_read_seq;
}

-- The row that is found goes to the top.
abbrev pub move_up :
    ℕ
    → (ConversationRow → ConversationRow)
    → Option ConversationRow
    → List ConversationRow
    → List ConversationRow
    → List ConversationRow
move_up contact_id f none rows absent = absent
move_up contact_id f (some c) rows absent = f c ∷ without contact_id rows

abbrev pub bump_row : ConversationUpdated → List ConversationRow → List ConversationRow
bump_row p rows =
    move_up p.contact_id (updated_row p) (find_first (row_of p.contact_id) rows) rows rows

unfoldable pub apply_conversation_update : ConversationUpdated → Cache → Cache
unfolding patch_list
apply_conversation_update p cache = patch_list (some p.last_message_channel) (bump_row p) cache

abbrev pub new_row : ConversationNew → ConversationRow
new_row p = record {
  contact_id = p.contact_id;
  contact_name = p.contact_name;
  last_message_preview = p.last_message_preview;
  last_message_at = p.last_message_at;
  last_message_channel = p.last_message_channel;
  last_message_seq = p.last_message_seq;
  last_read_seq = p.last_read_seq;
  unread_count = p.last_message_seq - p.last_read_seq;
  channels = channels_in p.channel;
}
  where
    channels_in : Option MessageChannel → List MessageChannel
    channels_in none = []
    channels_in (some channel) = channel ∷ []

abbrev pub renewed_row : ConversationNew → ConversationRow → ConversationRow
renewed_row p c = record c {
  last_message_preview = p.last_message_preview;
  last_message_at = p.last_message_at;
  last_message_seq = p.last_message_seq;
  last_read_seq = p.last_read_seq;
}

abbrev pub insert_row : ConversationNew → List ConversationRow → List ConversationRow
insert_row p rows =
    move_up p.contact_id (renewed_row p) (find_first (row_of p.contact_id) rows) rows
      (new_row p ∷ rows)

unfoldable pub insert_new_conversation : ConversationNew → Cache → Cache
unfolding patch_list
insert_new_conversation p cache =
    patch_list (some (or_else p.channel MessageChannel.whatsapp)) (insert_row p) cache

-- next[idx] = { ...next[idx], lastReadSeq } at the first row of the contact
unfoldable pub set_read :
    (contact_id last_read_seq : ℕ) → List ConversationRow → List ConversationRow
set_read contact_id n [] = []
set_read contact_id n (c ∷ rows) =
    let rest = set_read contact_id n rows in
    if row_of contact_id c then record c { last_read_seq = n } ∷ rows else c ∷ rest

-- setQueriesData: every list of conversations
unfoldable pub apply_read_update : (contact_id last_read_seq : ℕ) → Cache → Cache
unfolding set_read
apply_read_update contact_id n [] = []
apply_read_update contact_id n ((k, rows) ∷ cache) =
    (k, set_read contact_id n rows) ∷ apply_read_update contact_id n cache
