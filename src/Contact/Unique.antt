-- ===== src/Contact/Unique.antt =====
-- The constraint @@unique([channel, identifier]) of ContactChannel under the calls of
-- backend/src/modules/contact/contact.service.ts.
use bravi_ai.Contact.Writes.{
  resolve-contacts, create_contact-contacts, update_contact-contacts, add_channel-contacts,
  remove_channel-contacts, set_primary_channel-contacts, delete_contact-contacts,
  delete_contacts-contacts,
}
use bravi_ai.Contact.Calls.{run_contact, ContactCall}
use bravi_ai.Contact.Edit.{edit_contact}
use bravi_ai.Contact.Resolve.{has_channel}
use bravi_ai.Contact.Channels.{on_channels, make_primary, channel_by, set_primary}
use bravi_ai.Contact.Owners.{
  owners, holds, named, owners_free, owners-extend, owners-update_where, owners-delete_where,
  named-update_where, named-delete_where, holds-update_where, holds-delete_where,
}
use bravi_ai.Prelude.{
  inl, inr, subst, sym, Bool, ◌++◌, ◌+◌, is_some, false, ℕ, ◌≤◌, ◌≡◌, refl, String, List, [], ◌∷◌,
  arith, find_first, update_where, delete_where, true,
}
use bravi_ai.Data.{Contact, ContactChannel, MessageChannel, World, Env}
use bravi_ai.Store.{contact_by}

-- Each pair of channel and identifier has one row at most, and each identifier one contact at most.
abbrev pub IsUnique : List Contact → Type 0
IsUnique cs =
    ((channel : MessageChannel) (t : String) → owners channel t cs ≤ 1)
    × ((id : ℕ) → named id cs ≤ 1)

-- No contact has an identifier.
abbrev pub IsFreshContact : ℕ → List Contact → Type 0
IsFreshContact id cs = named id cs ≡ 0

module _ (cs : List Contact) (u : IsUnique cs) where
  put-IsUnique :
      (id : ℕ) (f : Contact → Contact)
      → ((c : Contact) → (f c).id ≡ c.id)
      → ((channel : MessageChannel) (t : String) (c : Contact)
          → holds channel t (f c).channels ≤ holds channel t c.channels)
      → IsUnique (update_where (contact_by id) f cs)
  put-IsUnique id f n h = (
    λ channel t.
        ground
          (arith, u.0 channel t, owners-update_where channel t (contact_by id) f cs (h channel t)),
    λ i. ground (arith, u.1 i, named-update_where i (contact_by id) f cs n),
  )

  delete-IsUnique : (p : Contact → Bool) → IsUnique (delete_where p cs)
  delete-IsUnique p = (
    λ channel t. ground (arith, u.0 channel t, owners-delete_where channel t p cs),
    λ i. ground (arith, u.1 i, named-delete_where i p cs),
  )

  new-IsUnique :
      (c : Contact) (x : ContactChannel)
      → c.channels ≡ x ∷ []
      → IsFreshContact c.id cs
      → is_some (find_first (λ (o : Contact). has_channel x.channel x.identifier o.channels) cs)
        ≡ false
      → IsUnique (c ∷ cs)
  unfolding owners holds named
  new-IsUnique c x e n h = (
    λ channel t.
        subst (λ l. holds channel t l + owners channel t cs ≤ 1) (sym e)
          (ground (arith, u.0 channel t, owners_free x channel t cs h)),
    λ i. ground (arith, u.1 i, n),
  )

  extend-IsUnique :
      (id : ℕ) (x : ContactChannel)
      → is_some (find_first (λ (o : Contact). has_channel x.channel x.identifier o.channels) cs)
        ≡ false
      → IsUnique (update_where (contact_by id) (on_channels λ l. l ++ (x ∷ [])) cs)
  extend-IsUnique id x h = (
    λ channel t. ground (
      arith,
      u.0 channel t,
      u.1 id,
      owners-extend x channel t id cs,
      owners_free x channel t cs h,
    ),
    λ i. ground (
      arith,
      u.1 i,
      named-update_where i (contact_by id) (on_channels λ l. l ++ (x ∷ [])) cs (λ c. refl),
    ),
  )

-- The rows that setPrimaryChannel and removeChannel leave have the same pairs, or fewer.
make_primary-holds :
    (channel : MessageChannel) (t : String) (channel_id : ℕ) (cs : List ContactChannel)
    → holds channel t (make_primary channel_id cs) ≤ holds channel t cs
make_primary-holds channel t channel_id cs = ground (
  arith,
  holds-update_where channel t (channel_by channel_id) (set_primary true)
      (update_where (λ (c : ContactChannel). c.is_primary) (set_primary false) cs) (λ c. refl),
  holds-update_where channel t (λ (c : ContactChannel). c.is_primary) (set_primary false) cs
      (λ c. refl),
)

heir-holds :
    (channel : MessageChannel) (t : String) (id : ℕ) (cs : List ContactChannel)
    → holds channel t (update_where (channel_by id) (set_primary true) cs) ≤ holds channel t cs
heir-holds channel t id cs =
    ground (arith, holds-update_where channel t (channel_by id) (set_primary true) cs (λ c. refl))

-- From the table before, where the call left it, or from what the call made of it.
kept {ℓ} : {A : Type ℓ} (P : A → Type 0) (a b : A) → P a → b ≡ a → P b
kept P a b p e = subst P (sym e) p

-- The pairs of channel and identifier stay unique: each of the eight writing calls of ContactService,
-- returned or thrown, keeps it that no two rows of ContactChannel have one channel and identifier,
-- and no two contacts one identifier, if the identifier of a new contact is fresh.
pub run_contact-IsUnique :
    (env : Env) (call : ContactCall) (s : World)
    → IsFreshContact env.row_id s.contacts
    → IsUnique s.contacts
    → IsUnique (run_contact env call s).contacts
unfolding run_contact
run_contact-IsUnique env (ContactCall.see channel identifier name) s n u =
    elim (resolve-contacts env s channel identifier name) [
      | inl w ↦ kept IsUnique _ _ (new-IsUnique s.contacts u _ _ refl n w.0) w.1
      | inr w ↦
          kept IsUnique _ _
            (put-IsUnique s.contacts u w.0 (λ c. record c { last_seen_at = env.now }) (λ c. refl)
              (λ channel t c. ground arith))
            w.1
    ]
run_contact-IsUnique env (ContactCall.add dto) s n u = elim (create_contact-contacts env s dto) [
  | inl e ↦ kept IsUnique _ _ u e
  | inr w ↦ kept IsUnique _ _ (new-IsUnique s.contacts u _ _ refl n w.0) w.1
]
run_contact-IsUnique env (ContactCall.change id dto) s n u =
    elim (update_contact-contacts env s id dto) [
      | inl e ↦ kept IsUnique _ _ u e
      | inr e ↦
          kept IsUnique _ _
            (put-IsUnique s.contacts u id (edit_contact dto) (λ c. refl)
              (λ channel t c. ground arith))
            e
    ]
run_contact-IsUnique env (ContactCall.extend id dto) s n u =
    elim (add_channel-contacts env s id dto) [
      | inl e ↦ kept IsUnique _ _ u e
      | inr w ↦ kept IsUnique _ _ (extend-IsUnique s.contacts u id _ w.0) w.1
    ]
run_contact-IsUnique env (ContactCall.detach id channel_id) s n u =
    let cut =
      put-IsUnique s.contacts u id (on_channels (delete_where (channel_by channel_id))) (λ c. refl)
        (λ channel t c. holds-delete_where channel t (channel_by channel_id) c.channels) in
    elim (remove_channel-contacts env s id channel_id) [
      | inl e ↦ kept IsUnique _ _ u e
      | inr (inl w) ↦ kept IsUnique _ _ cut w.3
      | inr (inr w) ↦
          kept IsUnique _ _
            (put-IsUnique _ cut id
              (on_channels (update_where (channel_by w.1.id) (set_primary true))) (λ c. refl)
              (λ channel t c. heir-holds channel t w.1.id c.channels))
            w.5
    ]
run_contact-IsUnique env (ContactCall.prefer id channel_id) s n u =
    elim (set_primary_channel-contacts env s id channel_id) [
      | inl e ↦ kept IsUnique _ _ u e
      | inr w ↦
          kept IsUnique _ _
            (put-IsUnique s.contacts u id (on_channels (make_primary channel_id)) (λ c. refl)
              (λ channel t c. make_primary-holds channel t channel_id c.channels))
            w.1
    ]
run_contact-IsUnique env (ContactCall.drop_one id) s n u = elim (delete_contact-contacts env s id) [
  | inl e ↦ kept IsUnique _ _ u e
  | inr e ↦ kept IsUnique _ _ (delete-IsUnique s.contacts u _) e
]
run_contact-IsUnique env (ContactCall.drop_many ids) s n u =
    elim (delete_contacts-contacts env s ids) [
      | inl e ↦ kept IsUnique _ _ u e
      | inr e ↦ kept IsUnique _ _ (delete-IsUnique s.contacts u _) e
    ]
