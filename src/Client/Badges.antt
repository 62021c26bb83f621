-- ===== src/Client/Badges.antt =====
-- The lists of frontend/lib/cachePatch.ts along the events that the server sends, and the badge of
-- frontend/components/inbox/ConversationRow.tsx.
use bravi_ai.Data.{MessageChannel}
use bravi_ai.Chat.Paging.Unique.{Distinct, find_many-Distinct}
use bravi_ai.Prelude.{
  List, find_many, find_first, ℕ, ◌∷◌, All, Option, ◌-◌, [], ◌≢◌, ◌≡◌, arith, some, none,
  Option-cases, or_else, inl, inr, ==_iff, find_first-IsTrue, refl, subst, sym, ◌∙◌,
}
use bravi_ai.Client.ConversationCache.{
  ConversationRow, ConversationUpdated, Cache, set_read, patch_list, apply_read_update,
  apply_conversation_update, ConversationNew, insert_new_conversation, row_of, without, bump_row,
  move_up, updated_row, insert_row, renewed_row, new_row,
}

-- Math.max(0, lastMessageSeq - lastReadSeq)
abbrev pub badge : ConversationRow → ℕ
badge c = c.last_message_seq - c.last_read_seq

-- The events of lib/socketListeners.ts that patch conversations.
pub data SocketEvent : Type 0 where
  row_updated : ConversationUpdated → SocketEvent
  row_created : ConversationNew → SocketEvent
  row_read : (contact_id last_read_seq : ℕ) → SocketEvent

abbrev pub listen : SocketEvent → Cache → Cache
listen (row_updated p) = apply_conversation_update p
listen (row_created p) = insert_new_conversation p
listen (row_read k n) = apply_read_update k n

abbrev pub listen_all : List SocketEvent → Cache → Cache
listen_all [] cache = cache
listen_all (e ∷ es) cache = listen_all es (listen e cache)

abbrev pub row_contact : ConversationRow → ℕ
row_contact c = c.contact_id

-- No list shows a contact twice.
abbrev pub NoTwice : Cache → Type 0
NoTwice cache = All (λ l. Distinct row_contact l.1) cache

without-apart :
    (k : ℕ) (rows : List ConversationRow) → All (λ b. k ≢ row_contact b) (without k rows)
unfolding find_many
without-apart k [] = tt
without-apart k (a ∷ rows) = ground (arith, without-apart k rows)

move_up-Distinct :
    (k : ℕ) (f : ConversationRow → ConversationRow) (rows absent : List ConversationRow)
    → ((c : ConversationRow) → (f c).contact_id ≡ c.contact_id)
    → Distinct row_contact rows
    → (find_first (row_of k) rows ≡ none → Distinct row_contact absent)
    → Distinct row_contact (move_up k f (find_first (row_of k) rows) rows absent)
unfolding Distinct
move_up-Distinct k f rows absent h d a = elim (Option-cases (find_first (row_of k) rows)) [
  | inl e ↦ rw e (a e)
  | inr (c, e) ↦
      let p : c.contact_id ≡ k =
        (==_iff c.contact_id k).0 (find_first-IsTrue (row_of k) rows c e) in
      rw e (
        subst (λ i. All (λ b. i ≢ row_contact b) (without k rows)) (sym (h c ∙ p))
            (without-apart k rows),
        find_many-Distinct row_contact _ rows d,
      )
]

absent-apart :
    (k : ℕ) (rows : List ConversationRow)
    → find_first (row_of k) rows ≡ none
    → All (λ b. k ≢ row_contact b) rows
unfolding find_first
absent-apart k [] h = tt
absent-apart k (a ∷ rows) h = ground (arith, h, absent-apart k rows)

set_read-apart :
    (j k n : ℕ) (rows : List ConversationRow)
    → All (λ b. j ≢ row_contact b) rows
    → All (λ b. j ≢ row_contact b) (set_read k n rows)
unfolding set_read
set_read-apart j k n [] h = tt
set_read-apart j k n (a ∷ rows) h = ground (arith, h, set_read-apart j k n rows h.1)

set_read-Distinct :
    (k n : ℕ) (rows : List ConversationRow)
    → Distinct row_contact rows
    → Distinct row_contact (set_read k n rows)
unfolding set_read Distinct
set_read-Distinct k n [] d = tt
set_read-Distinct k n (a ∷ rows) d =
    ground (arith, d, set_read-apart a.contact_id k n rows d.0, set_read-Distinct k n rows d.1)

patch_list-NoTwice :
    (key : Option MessageChannel) (f : List ConversationRow → List ConversationRow) (cache : Cache)
    → ((rows : List ConversationRow) → Distinct row_contact rows → Distinct row_contact (f rows))
    → NoTwice cache
    → NoTwice (patch_list key f cache)
unfolding patch_list
patch_list-NoTwice key f [] h d = tt
patch_list-NoTwice key f ((k, rows) ∷ cache) h d =
    ground (arith, d, h rows d.0, patch_list-NoTwice key f cache h d.1)

read-NoTwice : (k n : ℕ) (cache : Cache) → NoTwice cache → NoTwice (apply_read_update k n cache)
unfolding apply_read_update
read-NoTwice k n [] d = tt
read-NoTwice k n ((key, rows) ∷ cache) d =
    (set_read-Distinct k n rows d.0, read-NoTwice k n cache d.1)

listen-NoTwice : (e : SocketEvent) (cache : Cache) → NoTwice cache → NoTwice (listen e cache)
unfolding apply_conversation_update insert_new_conversation Distinct
listen-NoTwice (row_updated p) cache d =
    patch_list-NoTwice (some p.last_message_channel) (bump_row p) cache
      (λ rows r. move_up-Distinct p.contact_id (updated_row p) rows rows (λ c. refl) r (λ e. r)) d
listen-NoTwice (row_created p) cache d =
    patch_list-NoTwice (some (or_else p.channel MessageChannel.whatsapp)) (insert_row p) cache
      (λ rows r.
        move_up-Distinct p.contact_id (renewed_row p) rows (new_row p ∷ rows) (λ c. refl) r
          (λ e. (absent-apart p.contact_id rows e, r)))
      d
listen-NoTwice (row_read k n) cache d = read-NoTwice k n cache d

-- Whatever events come, in whatever order, no list of the cache shows a contact twice, if none did.
pub listen_all-NoTwice :
    (es : List SocketEvent) (cache : Cache) → NoTwice cache → NoTwice (listen_all es cache)
listen_all-NoTwice [] cache d = d
listen_all-NoTwice (e ∷ es) cache d =
    listen_all-NoTwice es (listen e cache) (listen-NoTwice e cache d)
