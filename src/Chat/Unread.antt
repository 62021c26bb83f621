-- ===== src/Chat/Unread.antt =====
-- markRead and getUnreadCount of backend/src/modules/chat/chat.service.ts.
use bravi_ai.Prelude.{
  ℕ, String, List, [], ◌∷◌, some, ◌≡◌, ◌≤◌, refl, true, false, arith, All, find_first, find_many,
  update_where, str_eq, eq_iff,
}
use bravi_ai.Data.{ChatMessage, ChatParticipant, World, Env}
use bravi_ai.Exec.{ok}
use bravi_ai.Chat.Members.{active, participant_by}
use bravi_ai.Chat.Receipts.{
  mark_read, get_unread_count, active_member, read_of, unread_for, emit_receipts,
}

none_unread :
    (room t : ℕ) (user : String) (ms : List ChatMessage)
    → All (λ (m : ChatMessage). m.created_at ≤ t) ms
    → find_many (unread_for room user (some t)) ms ≡ []
unfolding find_many
none_unread room t user [] h = refl
none_unread room t user (m ∷ ms) h = ground (arith, h.0, none_unread room t user ms h.1)

read_mark :
    (room t : ℕ) (user : String) (ps : List ChatParticipant)
    → active (find_first (participant_by room user) ps) ≡ true
    → read_of (
        find_first (participant_by room user) (
          update_where
            (active_member room user)
            (λ p. record p { last_read_at = some t; last_delivered_at = some t })
            ps))
      ≡ some t
unfolding find_first update_where
read_mark room t user [] h = ground (arith, h)
read_mark room t user (p ∷ ps) h = ground (arith, h, read_mark room t user ps)

others_mark :
    (room t : ℕ) (user other : String) (ps : List ChatParticipant)
    → str_eq user other ≡ false
    → find_first (participant_by room other) (
        update_where
          (active_member room user)
          (λ p. record p { last_read_at = some t; last_delivered_at = some t })
          ps)
      ≡ find_first (participant_by room other) ps
unfolding find_first update_where
others_mark room t user other [] h = refl
others_mark room t user other (p ∷ ps) h = ground (
  arith,
  h,
  eq_iff p.user_id user,
  eq_iff p.user_id other,
  eq_iff user other,
  others_mark room t user other ps h,
)

-- Marking a room as read settles it for the reader and for nobody else: for an active member, when no
-- message is later than the clock, his unread count is then 0, and the count of any other user is
-- what it was.
get_unread_count-mark_read :
    (env : Env) (room : ℕ) (user other : String) (s : World)
    → active (find_first (participant_by room user) s.chat.participants) ≡ true
    → All (λ (m : ChatMessage). m.created_at ≤ env.now) s.chat.messages
    → str_eq user other ≡ false
    → let after = (mark_read env room user s).1 in
      (get_unread_count room user after ≡ (ok 0, after))
      × ((get_unread_count room other after).0 ≡ (get_unread_count room other s).0)
unfolding mark_read get_unread_count emit_receipts
get_unread_count-mark_read env room user other s a h n = ground (
  arith,
  read_mark room env.now user s.chat.participants a,
  none_unread room env.now user s.chat.messages h,
  others_mark room env.now user other s.chat.participants n,
)
