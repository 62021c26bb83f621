-- ===== src/Chat/Toggle.antt =====
-- toggleReaction of backend/src/modules/chat/chat.service.ts, twice.
use bravi_ai.Chat.Members.{assert_active_member}
use bravi_ai.Chat.Reactions.{toggle_reaction, flip_reaction, has_reacted, reaction_by}
use bravi_ai.Prelude.{
  ℕ, String, List, ◌∷◌, [], ◌≡◌, refl, true, false, not, arith, find_first-delete_where_hidden,
  find_first, delete_where, eq_iff, find_many, ◌==◌,
}
use bravi_ai.Data.{ChatMessageReaction, World}
use bravi_ai.Exec.{ok}

-- There is no such reaction after the deletion, and none is deleted when there is none.
delete_where-flip :
    (id : ℕ) (user emoji : String) (rs : List ChatMessageReaction)
    → has_reacted id user emoji rs ≡ false
    → delete_where (reaction_by id user emoji) rs ≡ rs
unfolding find_first delete_where
delete_where-flip id user emoji [] h = refl
delete_where-flip id user emoji (r ∷ rs) h = ground (arith, delete_where-flip id user emoji rs)

reaction_by_self :
    (id : ℕ) (user emoji : String)
    → reaction_by id user emoji (record { chat_message_id = id; user_id = user; emoji = emoji })
      ≡ true
reaction_by_self id user emoji = ground (arith, eq_iff user user, eq_iff emoji emoji)

flip_reaction-has_reacted :
    (id : ℕ) (user emoji : String) (rs : List ChatMessageReaction)
    → has_reacted id user emoji (flip_reaction id user emoji rs)
      ≡ not (has_reacted id user emoji rs)
unfolding find_first delete_where
flip_reaction-has_reacted id user emoji rs = ground (
  arith,
  reaction_by_self id user emoji,
  find_first-delete_where_hidden (reaction_by id user emoji) (reaction_by id user emoji) rs
      (λ r e. e),
)

flip_twice :
    (id : ℕ) (user emoji : String) (rs : List ChatMessageReaction)
    → has_reacted id user emoji rs ≡ false
    → flip_reaction id user emoji (flip_reaction id user emoji rs) ≡ rs
unfolding find_first delete_where
flip_twice id user emoji rs h =
    ground (arith, reaction_by_self id user emoji, delete_where-flip id user emoji rs h)

-- Toggling is undone by toggling: when a user who had not reacted with this emoji toggles it and the
-- call succeeds, the reaction is there afterwards; the same call again succeeds too, answers with
-- the reactions that the message had at first, and leaves the tables of the chat as they were.
toggle_reaction-twice :
    (room id : ℕ) (user emoji : String) (s : World) (rs : List ChatMessageReaction)
    → (toggle_reaction room id user emoji s).0 ≡ ok rs
    → has_reacted id user emoji s.chat.reactions ≡ false
    → let once = (toggle_reaction room id user emoji s).1 in
      let twice = toggle_reaction room id user emoji once in
      (has_reacted id user emoji once.chat.reactions ≡ true)
      × (twice.0
          ≡ ok (find_many (λ (r : ChatMessageReaction). r.chat_message_id == id) s.chat.reactions))
      × (twice.1.chat ≡ s.chat)
unfolding toggle_reaction assert_active_member
toggle_reaction-twice room id user emoji s rs h n = ground (
  arith,
  flip_twice id user emoji s.chat.reactions n,
  flip_reaction-has_reacted id user emoji s.chat.reactions,
)
