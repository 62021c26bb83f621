-- ===== src/Contact/Primary.antt =====
-- The primary channel of a contact under the calls of backend/src/modules/contact/contact.service.ts.
mod Edits
pub use Edits.{HasPrimary, IsFreshChannel}
use Edits.{
  put-put, new-HasPrimary, make_primary-HasPrimary, extend-HasPrimary, detach-HasPrimary,
  heir-HasPrimary,
}
use bravi_ai.Contact.Resolve.{normalize_identifier}
use bravi_ai.Contact.Calls.{ContactCall, run_contact}
use bravi_ai.Contact.Channels.{
  AddChannel, add_channel, channel_row, channel_by, channels_of, on_channels, set_primary,
  first_channel,
}
use bravi_ai.Contact.Edit.{edit_contact}
use bravi_ai.Contact.Marked.{is_primary, marked, marked-append, All-put}
use bravi_ai.Contact.Owners.{named}
use bravi_ai.Contact.Writes.{
  resolve-contacts, create_contact-contacts, update_contact-contacts, add_channel-contacts,
  remove_channel-contacts, set_primary_channel-contacts, delete_contact-contacts,
  delete_contacts-contacts, channels_at,
}
use bravi_ai.Prelude.{
  All-delete_where, All-update_where, All-find_first, or_else, ℕ, ◌≤◌, true, false, List, [], ◌∷◌,
  ◌++◌, some, ◌≡◌, ◌∙◌, refl, sym, ap, subst, arith, All, inl, inr, find_first, is_some,
  delete_where, update_where, find_first-IsTrue, find_first-update_where,
}
use bravi_ai.Data.{Contact, ContactChannel, Env, World}
use bravi_ai.Exec.{ok}
use bravi_ai.Store.{contact_by}

-- Not an addChannel with isPrimary.
abbrev pub IsPlain : ContactCall → Type 0
IsPlain (ContactCall.extend id dto) = or_else dto.is_primary false ≡ false
IsPlain _ = Unit

kept : (a b : List Contact) → All HasPrimary a → b ≡ a → All HasPrimary b
kept a b p e = subst (λ l. All HasPrimary l) (sym e) p

-- A contact keeps one primary channel: each of the eight writing calls of ContactService but an addChannel
-- with isPrimary, returned or thrown, keeps it that every contact has exactly one primary channel
-- (and no identifier twice among its channels), if the identifier of a new row is fresh and no two
-- contacts have one identifier.
pub run_contact-HasPrimary :
    (env : Env) (call : ContactCall) (s : World)
    → IsPlain call
    → All (IsFreshChannel env.row_id) s.contacts
    → ((id : ℕ) → named id s.contacts ≤ 1)
    → All HasPrimary s.contacts
    → All HasPrimary (run_contact env call s).contacts
unfolding run_contact
run_contact-HasPrimary env (ContactCall.see channel identifier name) s q n u a =
    elim (resolve-contacts env s channel identifier name) [
      | inl w ↦ kept _ _ (new-HasPrimary _ refl, a) w.1
      | inr w ↦
          kept _ _
            (All-update_where HasPrimary _ (λ c. record c { last_seen_at = env.now }) s.contacts
              (λ c p. p) a)
            w.1
    ]
run_contact-HasPrimary env (ContactCall.add dto) s q n u a =
    elim (create_contact-contacts env s dto) [
      | inl e ↦ kept _ _ a e
      | inr w ↦ kept _ _ (new-HasPrimary _ refl, a) w.1
    ]
run_contact-HasPrimary env (ContactCall.change id dto) s q n u a =
    elim (update_contact-contacts env s id dto) [
      | inl e ↦ kept _ _ a e
      | inr e ↦
          kept _ _ (All-update_where HasPrimary _ (edit_contact dto) s.contacts (λ c p. p) a) e
    ]
run_contact-HasPrimary env (ContactCall.extend id dto) s q n u a =
    elim (add_channel-contacts env s id dto) [
      | inl e ↦ kept _ _ a e
      | inr w ↦
          kept _ _
            (All-put HasPrimary id _ s.contacts (u id)
              (λ c g p.
                extend-HasPrimary c _ q
                  (All-find_first (IsFreshChannel env.row_id) _ s.contacts c g n) p)
              a)
            w.1
    ]
run_contact-HasPrimary env (ContactCall.detach id channel_id) s q n u a =
    elim (remove_channel-contacts env s id channel_id) [
      | inl e ↦ kept _ _ a e
      | inr (inl w) ↦
          kept _ _
            (All-put HasPrimary id _ s.contacts (u id)
              (λ c g p.
                detach-HasPrimary c channel_id w.0
                  (subst (λ l. find_first (channel_by channel_id) l ≡ some w.0) (ap channels_of g)
                    w.1)
                  w.2 p)
              a)
            w.3
      | inr (inr w) ↦
          kept _ _
            (All-put HasPrimary id _ s.contacts (u id)
              (λ c g p.
                heir-HasPrimary c channel_id w.0 w.1
                  (subst (λ l. find_first (channel_by channel_id) l ≡ some w.0) (ap channels_of g)
                    w.2)
                  w.3
                  (subst (λ l. first_channel (delete_where (channel_by channel_id) l) ≡ some w.1)
                    (ap channels_of g) w.4)
                  p)
              a)
            (w.5
              ∙ put-put id (update_where (channel_by w.1.id) (set_primary true))
                  (delete_where (channel_by channel_id)) s.contacts)
    ]
run_contact-HasPrimary env (ContactCall.prefer id channel_id) s q n u a =
    elim (set_primary_channel-contacts env s id channel_id) [
      | inl e ↦ kept _ _ a e
      | inr w ↦
          kept _ _
            (All-put HasPrimary id _ s.contacts (u id)
              (λ c g p.
                make_primary-HasPrimary c channel_id
                  (subst (λ l. is_some (find_first (channel_by channel_id) l) ≡ true)
                    (ap channels_of g) w.0)
                  p)
              a)
            w.1
    ]
run_contact-HasPrimary env (ContactCall.drop_one id) s q n u a =
    elim (delete_contact-contacts env s id) [
      | inl e ↦ kept _ _ a e
      | inr e ↦ kept _ _ (All-delete_where HasPrimary _ s.contacts a) e
    ]
run_contact-HasPrimary env (ContactCall.drop_many ids) s q n u a =
    elim (delete_contacts-contacts env s ids) [
      | inl e ↦ kept _ _ a e
      | inr e ↦ kept _ _ (All-delete_where HasPrimary _ s.contacts a) e
    ]

-- An addChannel with isPrimary that succeeds gives a contact with one primary channel a second one.
add_channel-primary :
    (env : Env) (id : ℕ) (dto : AddChannel) (c : Contact) (x : ContactChannel) (s : World)
    → find_first (contact_by id) s.contacts ≡ some c
    → (add_channel env id dto s).0 ≡ ok x
    → dto.is_primary ≡ some true
    → marked is_primary c.channels ≡ 1
    → marked is_primary (channels_at id (add_channel env id dto s).1.contacts) ≡ 2
unfolding add_channel
add_channel-primary env id dto c x s f h q p =
    let row = channel_row env dto (normalize_identifier dto.channel dto.identifier) in
    ground (
      arith,
      f,
      h,
      q,
      p,
      find_first-IsTrue (contact_by id) s.contacts c f,
      find_first-update_where (contact_by id) (contact_by id) (on_channels λ l. l ++ (row ∷ []))
          (λ c. refl) s.contacts,
      marked-append is_primary c.channels row,
    )
