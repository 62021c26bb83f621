-- ===== src/Client/InboxStore.antt =====
-- frontend/stores/inboxStore.ts. The identifiers of contacts and of messages are numbers.
use bravi_ai.Data.{MessageChannel}
use bravi_ai.Client.Maps.{get, put_key, remove_key, values}
use bravi_ai.Prelude.{
  String, ℕ, Option, none, Bool, List, [], max, some, ◌++◌, if◌then◌else◌, true, ◌&&◌, or_else,
  find_many, ◌+◌, ◌∷◌, false, ltb, not, str_eq, ◌-◌,
}

pub record TypingUser : Type 0 where
  pub user_id : String
  pub user_name : String
  pub expires_at : ℕ

pub record DraftState : Type 0 where
  pub body : String
  pub channel : MessageChannel

pub data OutboxStatus : Type 0 where
  sending failed : OutboxStatus

pub record OutboxEntry : Type 0 where
  pub client_message_id : ℕ
  pub contact_id : ℕ
  pub channel : MessageChannel
  pub status : OutboxStatus
  pub attempts : ℕ
  pub first_attempt_at : ℕ
  pub body : String

pub data ConnectionStatus : Type 0 where
  connected reconnecting offline : ConnectionStatus

pub record InboxStore : Type 0 where
  pub active_contact_id : Option ℕ
  pub connection_status : ConnectionStatus
  pub last_seq_by_contact : List (ℕ × ℕ)
  pub outbox : List (ℕ × OutboxEntry)
  pub typing_by_contact : List (ℕ × List TypingUser)
  pub online_user_ids : List String
  pub draft_by_contact : List (ℕ × DraftState)

abbrev pub empty_store : InboxStore
empty_store = record {
  active_contact_id = none;
  connection_status = connected;
  last_seq_by_contact = [];
  outbox = [];
  typing_by_contact = [];
  online_user_ids = [];
  draft_by_contact = [];
}

abbrev pub set_active_contact_id : Option ℕ → InboxStore → InboxStore
set_active_contact_id id s = record s { active_contact_id = id }

abbrev pub set_connection_status : ConnectionStatus → InboxStore → InboxStore
set_connection_status status s = record s { connection_status = status }

unfoldable pub update_last_seq : (contact_id seq : ℕ) → InboxStore → InboxStore
unfolding get put_key
update_last_seq contact_id seq s = record s {
  last_seq_by_contact =
      put_key contact_id (max (or_else (get contact_id s.last_seq_by_contact) 0) seq)
        s.last_seq_by_contact;
}

unfoldable pub set_outbox_entry : ℕ → OutboxEntry → InboxStore → InboxStore
unfolding put_key
set_outbox_entry id entry s = record s { outbox = put_key id entry s.outbox }

unfoldable pub remove_outbox_entry : ℕ → InboxStore → InboxStore
unfolding remove_key
remove_outbox_entry id s = record s { outbox = remove_key id s.outbox }

abbrev pub fail_entry : OutboxEntry → OutboxEntry
fail_entry e = record e { status = failed }

abbrev pub fail_found : ℕ → Option OutboxEntry → InboxStore → InboxStore
fail_found id none s = s
fail_found id (some e) s = record s { outbox = put_key id (fail_entry e) s.outbox }

unfoldable pub mark_outbox_failed : ℕ → InboxStore → InboxStore
unfolding get put_key
mark_outbox_failed id s = fail_found id (get id s.outbox) s

abbrev pub typing_of : ℕ → InboxStore → List TypingUser
typing_of contact_id s = or_else (get contact_id s.typing_by_contact) []

abbrev pub others_typing : ℕ → String → InboxStore → List TypingUser
others_typing contact_id user s =
    find_many (λ (u : TypingUser). not (str_eq u.user_id user)) (typing_of contact_id s)

unfoldable pub set_typing :
    (now contact_id : ℕ) → (user_id user_name : String) → InboxStore → InboxStore
unfolding get put_key
set_typing now contact_id user_id user_name s = record s {
  typing_by_contact =
      put_key contact_id
        (others_typing contact_id user_id s
          ++ (record { user_id = user_id; user_name = user_name; expires_at = now + 4000 } ∷ []))
        s.typing_by_contact;
}

unfoldable pub clear_typing : (contact_id : ℕ) → (user_id : String) → InboxStore → InboxStore
unfolding get put_key
clear_typing contact_id user_id s = record s {
  typing_by_contact = put_key contact_id (others_typing contact_id user_id s) s.typing_by_contact;
}

-- Array.from(new Set([...ids, id]))
unfoldable pub add_user : String → List String → List String
add_user id [] = id ∷ []
add_user id (j ∷ ids) = let rest = add_user id ids in if str_eq j id then j ∷ ids else j ∷ rest

unfoldable pub set_presence : String → (online : Bool) → InboxStore → InboxStore
unfolding add_user
set_presence user online s = record s {
  online_user_ids =
      if online
      then add_user user s.online_user_ids
      else find_many (λ id. not (str_eq id user)) s.online_user_ids;
}

unfoldable pub save_draft_of : ℕ → DraftState → InboxStore → InboxStore
unfolding put_key
save_draft_of contact_id draft s = record s {
  draft_by_contact = put_key contact_id draft s.draft_by_contact;
}

unfoldable pub clear_draft : ℕ → InboxStore → InboxStore
unfolding remove_key
clear_draft contact_id s = record s { draft_by_contact = remove_key contact_id s.draft_by_contact }

abbrev pub is_sending : OutboxStatus → Bool
is_sending sending = true
is_sending failed = false

abbrev pub is_stuck : ℕ → OutboxEntry → Bool
is_stuck now e = is_sending e.status && ltb 30000 (now - e.first_attempt_at)

unfoldable pub sweep_entries : ℕ → List OutboxEntry → InboxStore → InboxStore
unfolding mark_outbox_failed
sweep_entries now [] s = s
sweep_entries now (e ∷ es) s =
    sweep_entries now es (if is_stuck now e then mark_outbox_failed e.client_message_id s else s)

unfoldable pub sweep_stuck_outbox_messages : ℕ → InboxStore → InboxStore
unfolding sweep_entries values
sweep_stuck_outbox_messages now s = sweep_entries now (values s.outbox) s
