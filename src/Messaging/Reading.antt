-- ===== src/Messaging/Reading.antt =====
-- What handleReadMark of backend/src/websocket/app.gateway.ts does to the unread counts of
-- backend/src/modules/messaging/messaging.service.ts.
use bravi_ai.Messaging.Summary.{unread_contacts, get_unread_summary}
use bravi_ai.Messaging.ReadMark.{
  ReadMark, read_up, handle_read_mark, marked, broadcast_unread_summary, catch_up,
}
use bravi_ai.Inbox.Numbers.{IsNumberedWorld}
use bravi_ai.Exec.{Result, ok}
use bravi_ai.Messaging.Counts.{has_unread, unread_contacts_rows}
use bravi_ai.Inbox.Sequence.{Above, watermark_of, Above-watermark}
use bravi_ai.Store.{contact_by}
use bravi_ai.Chat.Paging.Unique.{Distinct}
use bravi_ai.Data.{MessageChannel, Contact, Message, World, unread_summary, read_updated}
use bravi_ai.Prelude.{
  Bool, update_where, find_many, ℕ, find_first, true, false, List, All, ◌≢◌, ◌≡◌, ◌∷◌, some, ◌≤◌,
  ◌==◌, length, arith, ◌+◌, [], if◌then◌else◌, refl, Bool-cases, inl, subst, inr, edit, ap, String,
  max, sym, ◌⊎◌, leb, ◌<◌, find_first-update_where, ==_refl,
}

abbrev pub one_if : Bool → ℕ
one_if true = 1
one_if false = 0

update_none :
    (k : ℕ) (f : Contact → Contact) (cs : List Contact)
    → All (λ b. k ≢ b.id) cs
    → update_where (contact_by k) f cs ≡ cs
unfolding update_where
update_none k f [] h = refl
update_none k f (a ∷ cs) h = rw (apart k a.id h.0, update_none k f cs h.1) refl
  where
    apart : (i j : ℕ) → i ≢ j → (j == i) ≡ false
    apart i j n = ground (arith, n)

-- An edit after which its row no longer passes a test takes it from the count of the test.
length-find_many_less :
    (p : Contact → Bool) (f : Contact → Contact) (c : Contact) (cs : List Contact)
    → Distinct (λ (a : Contact). a.id) cs
    → find_first (contact_by c.id) cs ≡ some c
    → p (f c) ≡ false
    → length (find_many p (update_where (contact_by c.id) f cs)) + one_if (p c)
      ≡ length (find_many p cs)
unfolding find_many find_first update_where Distinct
length-find_many_less p f c [] d h n = cc
length-find_many_less p f c (a ∷ cs) d h n = elim (Bool-cases (a.id == c.id)) [
  | inl e ↦
      let same : a ≡ c = ground (arith, e, h) in
      rw (e, same, n, update_none c.id f cs (subst (λ x. All (λ b. x.id ≢ b.id) cs) same d.0))
        (count_one (p c))
  | inr e ↦
      let ih = length-find_many_less p f c cs d.1 (rw e at h) n in
      rw e
        (count_more (p a) (find_many p (update_where (contact_by c.id) f cs)) (find_many p cs) ih)
]
  where
    count_one :
        (b : Bool)
        → length (find_many p cs) + one_if b
          ≡ length (if b then c ∷ find_many p cs else find_many p cs)
    count_one true = omega arith
    count_one false = omega arith

    count_more :
        (b : Bool) (xs ys : List Contact)
        → length xs + one_if (p c) ≡ length ys
        → length (if b then a ∷ xs else xs) + one_if (p c) ≡ length (if b then a ∷ ys else ys)
    count_more true xs ys h = omega (arith, h)
    count_more false xs ys h = h

-- No message of the contact is above a mark that has reached the contact's last number.
no_unread :
    (channel : MessageChannel) (k n : ℕ) (c : Contact) (ms : List Message)
    → c.id ≡ k
    → n ≤ c.last_read_seq
    → Above k (n + 1) ms
    → has_unread channel ms c ≡ false
no_unread channel k n c [] i h a = refl
no_unread channel k n c (m ∷ ms) i h a =
    rw (no_unread channel k n c ms i h a.1) (ground (arith, i, h, a.0))

update-Distinct :
    (p : Contact → Bool) (f : Contact → Contact)
    → ((a : Contact) → (f a).id ≡ a.id)
    → (cs : List Contact) → Distinct (λ (a : Contact). a.id) cs
    → Distinct (λ (a : Contact). a.id) (update_where p f cs)
unfolding update_where Distinct
update-Distinct p f h [] d = tt
update-Distinct p f h (a ∷ cs) d = (rw (edit_id a) (others cs d.0), update-Distinct p f h cs d.1)
  where
    edit_id : (b : Contact) → (edit p f b).id ≡ b.id
    edit_id b = ground (arith, h b)

    others :
        (bs : List Contact)
        → All (λ b. a.id ≢ b.id) bs
        → All (λ b. a.id ≢ b.id) (update_where p f bs)
    others [] n = tt
    others (b ∷ bs) n = (rw (edit_id b) n.0, others bs n.1)

-- The state after a read mark of the contact `c`, and the answer.
abbrev pub Marks : Contact → World → Result ReadMark × World → Type 0
Marks c s r =
    (r.0 ≡ ok (marked (max c.last_read_seq c.last_message_seq)))
    × (r.1.messages ≡ s.messages)
    × ((channel : MessageChannel)
        → unread_contacts channel r.1 + one_if (has_unread channel s.messages c)
          ≡ unread_contacts channel s)
    × (((c.last_message_seq ≤ c.last_read_seq) × (r.1 ≡ s))
        ⊎ ((c.last_read_seq < c.last_message_seq)
            × (r.1.events
                ≡ unread_summary (unread_contacts MessageChannel.email r.1)
                    (unread_contacts MessageChannel.whatsapp r.1)
                    (unread_contacts MessageChannel.sms r.1)
                  ∷ read_updated c.id c.last_message_seq
                  ∷ s.events)))

module _ (c : Contact) (s : World) (d : Distinct (λ (a : Contact). a.id) s.contacts)
    (here : find_first (contact_by c.id) s.contacts ≡ some c) (numbered : IsNumberedWorld s) where
  above : Above c.id (c.last_message_seq + 1) s.messages
  above =
      subst (λ n. Above c.id (n + 1) s.messages) (ap watermark_of here)
        (Above-watermark c.id s.contacts s.messages numbered)

  -- What the marking takes from the count of a channel.
  marked-count :
      (channel : MessageChannel) (t : World)
      → t.messages ≡ s.messages
      → t.contacts ≡ update_where (contact_by c.id) read_up s.contacts
      → unread_contacts channel t + one_if (has_unread channel s.messages c)
        ≡ unread_contacts channel s
  marked-count channel t p q =
      rw
        (
          unread_contacts_rows channel t (
              subst (λ cs. Distinct (λ (a : Contact). a.id) cs) (sym q)
                (update-Distinct (contact_by c.id) read_up (λ a. refl) s.contacts d)),
          unread_contacts_rows channel s d,
          p,
          q,
        )
        (length-find_many_less (has_unread channel s.messages) read_up c s.contacts d here (
          no_unread channel c.id c.last_message_seq (read_up c) s.messages refl (omega arith)
            above))

  caught_up : leb c.last_message_seq c.last_read_seq ≡ true → Marks c s (catch_up c.id (some c) s)
  caught_up h =
      rw (h, largest c.last_read_seq c.last_message_seq h)
        (refl, refl, (λ channel. none_less channel), inl (reached h, refl))
    where
      largest : (i j : ℕ) → leb j i ≡ true → max i j ≡ i
      largest i j h = ground (arith, h)

      reached : leb c.last_message_seq c.last_read_seq ≡ true → c.last_message_seq ≤ c.last_read_seq
      reached h = ground (arith, h)

      none_less :
          (channel : MessageChannel)
          → unread_contacts channel s + one_if (has_unread channel s.messages c)
            ≡ unread_contacts channel s
      none_less channel =
          rw (no_unread channel c.id c.last_message_seq c s.messages refl (reached h) above)
            (omega arith)

  marked_up : leb c.last_message_seq c.last_read_seq ≡ false → Marks c s (catch_up c.id (some c) s)
  unfolding broadcast_unread_summary get_unread_summary
  marked_up h =
      let found_again : find_first (contact_by c.id)
            (update_where (contact_by c.id) read_up s.contacts)
          ≡ some (read_up c) =
        rw
          (
            find_first-update_where (contact_by c.id) (contact_by c.id) read_up (λ a. refl)
                s.contacts,
            here,
            ==_refl c.id,
          )
          refl in
      rw (h, found_again, largest c.last_read_seq c.last_message_seq h)
        (
          refl,
          refl,
          (λ channel.
              marked-count channel
                (record s { contacts = update_where (contact_by c.id) read_up s.contacts }) refl
                refl),
          inr (lags h, refl),
        )
    where
      largest : (i j : ℕ) → leb j i ≡ false → max i j ≡ j
      largest i j h = ground (arith, h)

      lags : leb c.last_message_seq c.last_read_seq ≡ false → c.last_read_seq < c.last_message_seq
      lags h = ground (arith, h)

  -- If the identifiers of the contacts are distinct and the messages are numbered as the services
  -- keep them, a read mark of a stored contact by a logged-in user answers with the higher of the
  -- contact's two marks, changes no message, and takes the contact from the unread count of each
  -- channel on which it had an unread message and from no other; it does nothing if the contact
  -- had been read, and otherwise announces the new mark and the new counts.
  pub handle_read_mark-Marks :
      (user : String) → Marks c s (handle_read_mark (some user) (some c.id) s)
  unfolding handle_read_mark
  handle_read_mark-Marks user =
      rw here (elim (Bool-cases (leb c.last_message_seq c.last_read_seq)) [
        | inl h ↦ caught_up h
        | inr h ↦ marked_up h
      ])
