-- ===== src/Client/ReadSync.antt =====
-- A read mark from the server (handleReadMark of backend/src/websocket/app.gateway.ts) to the badges of
-- every browser (READ_UPDATED in frontend/lib/socketListeners.ts, frontend/lib/cachePatch.ts).
use bravi_ai.Messaging.Reading.{handle_read_mark-Marks}
use bravi_ai.Messaging.ReadMark.{handle_read_mark}
use bravi_ai.Inbox.Numbers.{IsNumberedWorld}
use bravi_ai.Store.{contact_by}
use bravi_ai.Client.Badges.{row_contact, NoTwice, listen, row_read, badge}
use bravi_ai.Chat.Paging.Unique.{Distinct}
use bravi_ai.Client.ConversationCache.{set_read, apply_read_update, Cache, ConversationRow}
use bravi_ai.Prelude.{
  List, ℕ, suc, ◌∷◌, ◌≡◌, All, ◌-◌, String, [], ◌≤◌, ◌≢◌, Bool-cases, arith, find_first, sym, ◌==◌,
  inl, some, ==_iff, subst, ◌<◌, inr, true, ==_refl, length,
}
use bravi_ai.Data.{Event, Contact, World, read_updated}
use bravi_ai.Qualification.Worker.{new_events}

abbrev pub on_server_event : Event → Cache → Cache
on_server_event (read_updated contact_id n) cache = listen (row_read contact_id n) cache
on_server_event _ cache = cache

-- The events of a log, the newest first.
abbrev pub receive : List Event → Cache → Cache
receive [] cache = cache
receive (e ∷ es) cache = on_server_event e (receive es cache)

-- A row of the contact that is not ahead of the mark shows no badge.
abbrev pub IsClear : (contact_id last_read_seq : ℕ) → ConversationRow → Type 0
IsClear k n c = c.contact_id ≡ k → c.last_message_seq ≤ n → badge c ≡ 0

apart-IsClear :
    (k n : ℕ) (rows : List ConversationRow)
    → All (λ b. k ≢ row_contact b) rows
    → All (IsClear k n) rows
apart-IsClear k n [] h = tt
apart-IsClear k n (a ∷ rows) h = ((λ p. absurd (h.0 (sym p))), apart-IsClear k n rows h.1)

set_read-IsClear :
    (k n : ℕ) (rows : List ConversationRow)
    → Distinct row_contact rows
    → All (IsClear k n) (set_read k n rows)
unfolding set_read Distinct
set_read-IsClear k n [] d = tt
set_read-IsClear k n (a ∷ rows) d = elim (Bool-cases (a.contact_id == k)) [
  | inl q ↦
      let p : a.contact_id ≡ k = (==_iff a.contact_id k).0 q in
      rw q (
        (λ e h. omega (arith, h)),
        apart-IsClear k n rows (subst (λ i. All (λ b. i ≢ row_contact b) rows) p d.0),
      )
  | inr q ↦ rw q (
    (λ e. absurd (cc (q, subst (λ i. (i == k) ≡ true) (sym e) (==_refl k)))),
    set_read-IsClear k n rows d.1,
  )
]

read-IsClear :
    (k n : ℕ) (cache : Cache)
    → NoTwice cache
    → All (λ l. All (IsClear k n) l.1) (apply_read_update k n cache)
unfolding apply_read_update
read-IsClear k n [] d = tt
read-IsClear k n ((key, rows) ∷ cache) d =
    (set_read-IsClear k n rows d.0, read-IsClear k n cache d.1)

two_more : (n : ℕ) → suc (suc n) - n ≡ 2
two_more n = omega arith

-- If the identifiers of the contacts are distinct, the messages are numbered as the services keep
-- them and no cached list shows a contact twice, then after a read mark of a contact with messages
-- above its mark, and the events that it sends, every cached row of the contact that is not ahead of
-- the server shows no unread badge.
pub read_mark_shown :
    (c : Contact) (s : World) (user : String) (cache : Cache)
    → Distinct (λ (a : Contact). a.id) s.contacts
    → find_first (contact_by c.id) s.contacts ≡ some c
    → IsNumberedWorld s
    → c.last_read_seq < c.last_message_seq
    → NoTwice cache
    → let t = (handle_read_mark (some user) (some c.id) s).1 in
      All
        (λ l. All (IsClear c.id c.last_message_seq) l.1)
        (receive (new_events s.events t.events) cache)
read_mark_shown c s user cache d here numbered h twice =
    let (a, b, e, f) = handle_read_mark-Marks c s d here numbered user in
    elim f [
      | inl g ↦ absurd (omega (arith, h, g.0))
      | inr g ↦
          rw (g.1, two_more (length s.events)) (read-IsClear c.id c.last_message_seq cache twice)
    ]
