-- ===== src/Chat/Paging.antt =====
-- getMessages of backend/src/modules/chat/chat.service.ts called again and again with the cursor that
-- the last page gave, until there is none.
pub mod Unique
mod Steps
use Unique.{Distinct, sort_desc-Distinct, find_many-Distinct}
use Steps.{page_rest, page_more, take-drop, length-drop, behind-last_id}
use mathlib.Core.List.{append_assoc, append-nil}
use bravi_ai.Chat.Members.{assert_active_member, active, participant_by}
use bravi_ai.Chat.Receipts.{is_hidden_from}
use bravi_ai.Chat.History.{
  message_id, get_messages, older_page, newest_first, is_visible, behind, after_cursor, page,
  last_id, RowOrder, written_at,
}
use bravi_ai.Prelude.{
  ℕ, zero, suc, Bool, true, false, String, Option, none, some, List, [], ◌∷◌, ◌++◌, ◌≡◌, refl, sym,
  inl, inr, ◌⊎◌, ◌∙◌, ap, subst, arith, take, drop, length, ◌≤◌, ◌<◌, reverse, find_first,
  if◌then◌else◌,
}
use bravi_ai.Data.{ChatMessage, World}
use bravi_ai.Ordering.{Orders, order-sort_desc}
use bravi_ai.Prelude.{find_many, sort_desc}
use bravi_ai.Exec.{Exec, pure, ok, ◌>>=◌}

-- Scrolling up to the beginning: each page is put before those that are shown. `order fuel` is the
-- order of the rows in the request that leaves `fuel` requests.
unfoldable pub read_all :
    (order : ℕ → RowOrder)
    → (fuel : ℕ) → ℕ
    → (cursor : Option ℕ) → (limit : ℕ) → String
    → Exec (List ChatMessage)
read_all order zero room cursor limit user = pure []
read_all order (suc fuel) room cursor limit user = do
  p ← get_messages (order fuel) room cursor (some limit) user
  older ← (if p.has_more then read_all order fuel room p.next_cursor limit user else pure [])
  pure (older ++ p.messages)

ltb-cases : (a b : ℕ) → (a < b) ⊎ (b ≤ a)
ltb-cases a b = ground arith

reverse-append : {A : Type 0} (xs ys : List A) → reverse (xs ++ ys) ≡ reverse ys ++ reverse xs
unfolding reverse
reverse-append [] ys = sym (append-nil (reverse ys))
reverse-append (x ∷ xs) ys =
    ap (λ l. l ++ (x ∷ [])) (reverse-append xs ys) ∙ append_assoc (reverse ys) (reverse xs) (x ∷ [])

module _ (order : ℕ → RowOrder) (room n : ℕ) (user : String) (s : World)
    (member : active (find_first (participant_by room user) s.chat.participants) ≡ true) where
  get_messages-page :
      (i : ℕ) (cursor : Option ℕ)
      → get_messages (order i) room cursor (some (suc n)) user s
        ≡ (ok (older_page (suc n) cursor (newest_first (order i) (is_visible room user) s)), s)
  unfolding get_messages assert_active_member
  get_messages-page i cursor = ground (arith, member)

  page_at :
      (cursor : Option ℕ) (rows back : List ChatMessage) (r : List ChatMessage × Option ℕ × Bool)
      → after_cursor message_id cursor rows ≡ back
      → page message_id (suc n) back ≡ r
      → older_page (suc n) cursor rows
        ≡ record { messages = reverse r.0; next_cursor = r.1; has_more = r.2 }
  page_at cursor rows back r c e =
      (ap
        (λ l.
          let q = page message_id (suc n) l in
          record { messages = reverse q.0; next_cursor = q.1; has_more = q.2 })
        c)
      ∙ ap
          (λ (q : List ChatMessage × Option ℕ × Bool). record {
            messages = reverse q.0;
            next_cursor = q.1;
            has_more = q.2;
          })
          e

  read_all-rest :
      (fuel : ℕ) (cursor : Option ℕ) (front back : List ChatMessage)
      → ((i : ℕ) → newest_first (order i) (is_visible room user) s ≡ front ++ back)
      → Distinct message_id (front ++ back)
      → after_cursor message_id cursor (front ++ back) ≡ back
      → length back < fuel
      → read_all order fuel room cursor (suc n) user s ≡ (ok (reverse back), s)
  unfolding read_all page
  read_all-rest zero cursor front back e d c h = ground (arith, h)
  read_all-rest (suc fuel) cursor front back e d c h =
      let shown = take (suc n) back in
      let cut : (front ++ shown) ++ drop (suc n) back ≡ front ++ back =
        append_assoc front shown (drop (suc n) back)
        ∙ ap (λ l. front ++ l) (take-drop message_id (suc n) back) in
      elim (ltb-cases (suc n) (length back)) [
        | inl more ↦ ground (
          arith,
          e fuel,
          page_at cursor (front ++ back) back _ c (page_more message_id (suc n) back more),
          get_messages-page fuel cursor,
          read_all-rest fuel (last_id message_id shown) (front ++ shown) (drop (suc n) back)
              (λ i. e i ∙ sym cut) (subst (λ l. Distinct message_id l) (sym cut) d)
              (ap (λ l. after_cursor message_id (last_id message_id shown) l) cut
                ∙ behind-last_id message_id n front back d (omega (arith, more)))
              (omega (arith, h, more, length-drop message_id (suc n) back (omega (arith, more)))),
          sym (reverse-append shown (drop (suc n) back))
              ∙ ap (λ l. reverse l) (take-drop message_id (suc n) back),
        )
        | inr rest ↦ ground (
          arith,
          e fuel,
          page_at cursor (front ++ back) back _ c (page_rest message_id (suc n) back rest),
          get_messages-page fuel cursor,
        )
      ]

-- Scrolling up ends and shows everything: for an active member, with pages of one message or more,
-- identifiers that differ and no two visible messages of one time, following the cursors from the
-- newest page gives every visible message of the room, oldest first, once each, in at most one
-- request more than there are messages, and changes nothing, in whatever order, the newest first,
-- the database gives the rows of each request.
pub read_all-newest_first :
    (order : ℕ → RowOrder) (room n : ℕ) (user : String) (s : World)
    → ((i : ℕ) → Orders written_at (order i))
    → active (find_first (participant_by room user) s.chat.participants) ≡ true
    → Distinct message_id s.chat.messages
    → Distinct written_at (find_many (is_visible room user) s.chat.messages)
    → let rows = newest_first (sort_desc written_at) (is_visible room user) s in
      read_all order (suc (length rows)) room none (suc n) user s ≡ (ok (reverse rows), s)
unfolding newest_first
read_all-newest_first order room n user s o member d t =
    let rows = newest_first (sort_desc written_at) (is_visible room user) s in
    read_all-rest order room n user s member (suc (length rows)) none [] rows
      (λ i. order-sort_desc written_at (order i) _ (o i) t)
      (sort_desc-Distinct message_id written_at _
        (find_many-Distinct message_id (is_visible room user) s.chat.messages d))
      refl (omega arith)
