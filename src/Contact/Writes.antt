-- ===== src/Contact/Writes.antt =====
-- The table of contacts after each call of backend/src/modules/contact/contact.service.ts: as it was, or
-- with the one change of the call.
use bravi_ai.Contact.Resolve.{resolve, new_contact, has_channel, normalize_identifier}
use bravi_ai.Contact.Edit.{
  CreateContact, UpdateContact, create_contact, update_contact, edit_contact, contact_of,
}
use bravi_ai.Contact.Channels.{
  AddChannel, add_channel, channel_row, remove_channel, set_primary_channel, on_channels,
  channel_by, channels_of, first_channel, set_primary, make_primary,
}
use bravi_ai.Contact.Delete.{delete_contact, delete_contacts}
use bravi_ai.Enquiry.Notes.{member}
use bravi_ai.Prelude.{
  ℕ, ◌≡◌, ◌⊎◌, inl, inr, String, Option, some, true, false, List, [], ◌∷◌, ◌++◌, arith, Bool-cases,
  Option-cases, is_some, find_first, update_where, delete_where, length, leb,
}
use bravi_ai.Data.{Contact, ContactChannel, MessageChannel, Env, World}
use bravi_ai.Store.{contact_by}

abbrev pub put : ℕ → (List ContactChannel → List ContactChannel) → List Contact → List Contact
put id f cs = update_where (contact_by id) (on_channels f) cs

abbrev pub channels_at : ℕ → List Contact → List ContactChannel
channels_at id cs = channels_of (find_first (contact_by id) cs)

-- No contact has the pair.
abbrev pub IsFree : ContactChannel → List Contact → Type 0
IsFree x cs =
    is_some (find_first (λ (c : Contact). has_channel x.channel x.identifier c.channels) cs) ≡ false

module _ (env : Env) (s : World) where
  pub resolve-contacts :
      (channel : MessageChannel) (identifier : String) (name : Option String)
      → let t = normalize_identifier channel identifier in
        let after = (resolve env channel identifier name s).1.contacts in
        (IsFree
            (record { id = env.row_id; channel = channel; identifier = t; is_primary = true })
            s.contacts
          × (after ≡ new_contact env channel t name ∷ s.contacts))
        ⊎ ((id : ℕ) × (after
              ≡ update_where (contact_by id) (λ c. record c { last_seen_at = env.now }) s.contacts))
  unfolding resolve
  resolve-contacts channel identifier name =
      elim (Option-cases (
        find_first
          (λ (c : Contact).
            has_channel channel (normalize_identifier channel identifier) c.channels)
          s.contacts)) [
            | inl n ↦ inl (ground (arith, n), ground (arith, n))
            | inr f ↦ inr (f.0.id, ground (arith, f.1))
          ]

  pub create_contact-contacts :
      (dto : CreateContact)
      → let c = contact_of env dto (normalize_identifier dto.channel dto.identifier) in
        let after = (create_contact env dto s).1.contacts in
        (after ≡ s.contacts)
        ⊎ (IsFree
              (record {
                id = env.row_id;
                channel = dto.channel;
                identifier = normalize_identifier dto.channel dto.identifier;
                is_primary = true;
              })
              s.contacts
            × (after ≡ c ∷ s.contacts))
  unfolding create_contact
  create_contact-contacts dto = ground arith

  pub update_contact-contacts :
      (id : ℕ) (dto : UpdateContact)
      → let after = (update_contact id dto s).1.contacts in
        (after ≡ s.contacts) ⊎ (after ≡ update_where (contact_by id) (edit_contact dto) s.contacts)
  unfolding update_contact
  update_contact-contacts id dto = ground arith

  pub add_channel-contacts :
      (id : ℕ) (dto : AddChannel)
      → let x = channel_row env dto (normalize_identifier dto.channel dto.identifier) in
        let after = (add_channel env id dto s).1.contacts in
        (after ≡ s.contacts)
        ⊎ (IsFree x s.contacts × (after ≡ put id (λ l. l ++ (x ∷ [])) s.contacts))
  unfolding add_channel
  add_channel-contacts id dto = ground arith

  pub remove_channel-contacts :
      (id channel_id : ℕ)
      → let before = channels_at id s.contacts in
        let cut = put id (delete_where (channel_by channel_id)) s.contacts in
        let after = (remove_channel id channel_id s).1.contacts in
        (after ≡ s.contacts)
        ⊎ ((lost : ContactChannel) × (find_first (channel_by channel_id) before ≡ some lost)
            × (lost.is_primary ≡ false)
            × (after ≡ cut))
        ⊎ ((lost : ContactChannel) × (heir : ContactChannel) × (find_first
                (channel_by channel_id)
                before
              ≡ some lost)
            × (lost.is_primary ≡ true)
            × (first_channel (delete_where (channel_by channel_id) before) ≡ some heir)
            × (after ≡ put id (update_where (channel_by heir.id) (set_primary true)) cut))
  unfolding remove_channel
  remove_channel-contacts id channel_id =
      let before = channels_at id s.contacts in
      elim (Bool-cases (leb (length before) 1)) [
        | inl e ↦ inl (ground (arith, e))
        | inr e ↦ elim (Option-cases (find_first (channel_by channel_id) before)) [
          | inl n ↦ inl (ground (arith, e, n))
          | inr f ↦ elim (Bool-cases f.0.is_primary) [
            | inr p ↦ inr (inl (f.0, f.1, p, ground (arith, e, f.1, p)))
            | inl p ↦
                elim (Option-cases (first_channel (delete_where (channel_by channel_id) before))) [
                  | inl n ↦ inl (ground (arith, e, f.1, p, n))
                  | inr h ↦ inr (inr (f.0, h.0, f.1, p, h.1, ground (arith, e, f.1, p, h.1)))
                ]
          ]
        ]
      ]

  pub set_primary_channel-contacts :
      (id channel_id : ℕ)
      → let after = (set_primary_channel id channel_id s).1.contacts in
        (after ≡ s.contacts)
        ⊎ ((is_some (find_first (channel_by channel_id) (channels_at id s.contacts)) ≡ true)
            × (after ≡ put id (make_primary channel_id) s.contacts))
  unfolding set_primary_channel
  set_primary_channel-contacts id channel_id = ground arith

  pub delete_contact-contacts :
      (id : ℕ)
      → let after = (delete_contact id s).1.contacts in
        (after ≡ s.contacts)
        ⊎ (after ≡ delete_where (λ (c : Contact). member (id ∷ []) c.id) s.contacts)
  unfolding delete_contact
  delete_contact-contacts id = ground arith

  pub delete_contacts-contacts :
      (ids : List ℕ)
      → let after = (delete_contacts ids s).1.contacts in
        (after ≡ s.contacts) ⊎ (after ≡ delete_where (λ (c : Contact). member ids c.id) s.contacts)
  unfolding delete_contacts
  delete_contacts-contacts ids = ground arith
