-- ===== src/Chat/Direct.antt =====
-- openDm of backend/src/modules/chat/chat.service.ts from both sides.
mod Key
use Key.{dm_key_comm}
use bravi_ai.Chat.Members.{
  active, activate, participant_by, upsert_participant, has_key, ensure_membership,
  emit_conversation_updated,
}
use bravi_ai.Chat.Channels.{dm_key, open_dm, create_dm, is_active_user}
use bravi_ai.Data.{Chat, ChatConversation, ChatParticipant, ChatParticipantRole, User, World, Env}
use bravi_ai.Exec.{ok}
use bravi_ai.Prelude.{
  ℕ, String, List, [], ◌∷◌, ◌≡◌, is_some, find_first, update_where, Bool, some, str_eq, eq_iff,
  true, false, refl, arith, sym, subst,
}

abbrev pub HasActive : ℕ → String → Chat → Type 0
HasActive id user t = active (find_first (participant_by id user) t.participants) ≡ true

activate_found :
    (id : ℕ) (user : String) (ps : List ChatParticipant)
    → is_some (find_first (participant_by id user) ps) ≡ true
    → active
        (find_first (participant_by id user) (update_where (participant_by id user) activate ps))
      ≡ true
unfolding find_first update_where
activate_found id user [] h = ground (arith, h)
activate_found id user (p ∷ ps) h = ground (arith, activate_found id user ps)

activate_others :
    (id : ℕ) (user : String) (q : ChatParticipant → Bool) (ps : List ChatParticipant)
    → active (find_first (participant_by id user) ps) ≡ true
    → active (find_first (participant_by id user) (update_where q activate ps)) ≡ true
unfolding find_first update_where
activate_others id user q [] h = ground (arith, h)
activate_others id user q (p ∷ ps) h = ground (arith, activate_others id user q ps)

-- Who is made a member is one, and who was one stays one.
upsert_participant-HasActive :
    (id : ℕ) (user : String) (role : ChatParticipantRole) (t : Chat)
    → HasActive id user (upsert_participant id user role t)
unfolding find_first
upsert_participant-HasActive id user role t =
    ground (arith, activate_found id user t.participants, eq_iff user user)

upsert_participant-HasActive_other :
    (id : ℕ) (user other : String) (role : ChatParticipantRole) (t : Chat)
    → HasActive id user t
    → HasActive id user (upsert_participant id other role t)
unfolding find_first
upsert_participant-HasActive_other id user other role t h =
    ground (arith, activate_others id user (participant_by id other) t.participants h)

-- What a successful call leaves: the key finds the conversation that it returned.
open_dm-find :
    (env : Env) (a b : String) (s : World) (c : ChatConversation)
    → (open_dm env a b s).0 ≡ ok c
    → let once = (open_dm env a b s).1 in
      (find_first (has_key (dm_key a b)) once.chat.conversations ≡ some c)
      × (once.users ≡ s.users)
      × (str_eq a b ≡ false)
unfolding open_dm create_dm ensure_membership find_first emit_conversation_updated
open_dm-find env a b s c h = ground (arith, eq_iff (dm_key a b) (dm_key a b))

open_dm_found :
    (env : Env) (a b : String) (s : World) (c : ChatConversation)
    → find_first (has_key (dm_key a b)) s.chat.conversations ≡ some c
    → str_eq a b ≡ false
    → is_active_user (find_first (λ (u : User). str_eq u.id b) s.users) ≡ true
    → open_dm env a b s ≡ (
      ok c,
      record s {
        chat =
            upsert_participant c.id b ChatParticipantRole.member
              (upsert_participant c.id a ChatParticipantRole.member s.chat);
      },
    )
unfolding open_dm ensure_membership
open_dm_found env a b s c h n u = ground (arith, h, n, u)

str_eq-false : (a b : String) → str_eq a b ≡ false → str_eq b a ≡ false
str_eq-false a b h = ground (arith, eq_iff a b, eq_iff b a, h)

-- A direct message is one conversation for both sides: when one user has opened it, the other (whose
-- partner is an active account) opens the same conversation, none is added, and both are active
-- members of it then.
open_dm_comm :
    (env env' : Env) (a b : String) (s : World) (c : ChatConversation)
    → (open_dm env a b s).0 ≡ ok c
    → is_active_user (find_first (λ (u : User). str_eq u.id a) s.users) ≡ true
    → let once = (open_dm env a b s).1 in
      let twice = open_dm env' b a once in
      (twice.0 ≡ ok c)
      × (twice.1.chat.conversations ≡ once.chat.conversations)
      × HasActive c.id a twice.1.chat
      × HasActive c.id b twice.1.chat
open_dm_comm env env' a b s c h u =
    let once = (open_dm env a b s).1 in
    let f = open_dm-find env a b s c h in
    let e =
      open_dm_found env' b a once c
        (subst (λ k. find_first (has_key k) once.chat.conversations ≡ some c) (dm_key_comm a b) f.0)
        (str_eq-false a b f.2)
        (subst (λ us. is_active_user (find_first (λ (x : User). str_eq x.id a) us) ≡ true) (sym f.1)
          u) in
    let joined = upsert_participant c.id b ChatParticipantRole.member once.chat in
    subst
      (λ r.
        (r.0 ≡ ok c)
        × (r.1.chat.conversations ≡ once.chat.conversations)
        × HasActive c.id a r.1.chat
        × HasActive c.id b r.1.chat)
      (sym e)
      (
        refl,
        refl,
        upsert_participant-HasActive c.id a ChatParticipantRole.member joined,
        upsert_participant-HasActive_other c.id b a ChatParticipantRole.member joined
            (upsert_participant-HasActive c.id b ChatParticipantRole.member once.chat),
      )
