-- ===== src/Messaging/Stars.antt =====
-- toggleMessageStar and getStarredMessages of backend/src/modules/messaging/messaging.service.ts
use bravi_ai.Store.{find_message, update_message}
use bravi_ai.Exec.{Exec, ◌>>=◌, found, not_found, ◌>>◌, emit, pure}
use bravi_ai.Data.{Message, World, star_toggled}
use bravi_ai.Prelude.{Bool, ℕ, List, sort_desc, find_many, ◌&&◌, ◌==◌, not}

-- The update stores the negation of what was read.
abbrev pub star_as : Bool → Message → Message
star_as b m = record m { is_starred = b }

unfoldable pub toggle_message_star : ℕ → Exec Message
toggle_message_star id = do
  row ← find_message id
  m ← found row not_found
  update_message id (star_as (not m.is_starred))
  emit (star_toggled m.contact_id m.id (not m.is_starred))
  pure (star_as (not m.is_starred) m)

unfoldable pub get_starred_messages : ℕ → World → List Message
get_starred_messages contact_id s =
    sort_desc (λ (m : Message). m.seq)
      (find_many (λ m. m.is_starred && m.contact_id == contact_id) s.messages)
