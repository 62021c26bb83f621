-- ===== src/Contact/Deletion.antt =====
-- What deleteContact and deleteContacts of backend/src/modules/contact/contact.service.ts leave.
use bravi_ai.Contact.Delete.{delete_contacts, is_from, open_count, delete_rows, delete_enquiries}
use bravi_ai.Enquiry.Notes.{member}
use bravi_ai.Prelude.{
  ℕ, Bool, subst, update_where, Bool-cases, true, false, ◌≡◌, refl, ◌⊎◌, inl, inr, List, [], ◌∷◌,
  arith, All, map, ltb, length, find_many, delete_where, none, ◌<◌,
}
use bravi_ai.Data.{Contact, Enquiry, InboundMessage, Message, World}
use bravi_ai.Exec.{ok, err, bad_request}

abbrev pub of_contacts : List ℕ → Enquiry → Bool
of_contacts ids e = member ids e.contact_id

module _ (ids : List ℕ) where
  abbrev Covered : List ℕ → Enquiry → Type 0
  Covered lost e = of_contacts ids e ≡ true → member lost e.id ≡ true

  abbrev lost_enquiries : List Enquiry → List ℕ
  lost_enquiries es = map (λ (e : Enquiry). e.id) (find_many (of_contacts ids) es)

  none_remains :
      (lost : List ℕ) (es : List Enquiry)
      → All (Covered lost) es
      → find_many (of_contacts ids) (delete_where (λ (e : Enquiry). member lost e.id) es) ≡ []
  unfolding find_many delete_where
  none_remains lost [] h = refl
  none_remains lost (e ∷ es) h = ground (arith, h.0, none_remains lost es h.1)

  weaken :
      (i : ℕ) (lost : List ℕ) (es : List Enquiry)
      → All (Covered lost) es
      → All (Covered (i ∷ lost)) es
  unfolding member
  weaken i lost [] h = tt
  weaken i lost (e ∷ es) h = (λ p. ground (arith, h.0 p), weaken i lost es h.1)

  enquiries-Covered : (es : List Enquiry) → All (Covered (lost_enquiries es)) es
  unfolding member find_many
  enquiries-Covered [] = tt
  enquiries-Covered (e ∷ es) = elim (Bool-cases (of_contacts ids e)) [
    | inl p ↦
        subst (λ l. All (Covered l) (e ∷ es)) {x = e.id ∷ lost_enquiries es}
          {y = lost_enquiries (e ∷ es)} (ground (arith, p))
          ((λ q. ground arith), weaken e.id (lost_enquiries es) es (enquiries-Covered es))
    | inr p ↦
        subst (λ l. All (Covered l) (e ∷ es)) {x = lost_enquiries es} {y = lost_enquiries (e ∷ es)}
          (ground (arith, p)) ((λ q. ground (arith, p, q)), enquiries-Covered es)
  ]

module _ {ℓ} {A : Type ℓ} (p : A → Bool) where
  find_many-delete_where : (rows : List A) → find_many p (delete_where p rows) ≡ []
  unfolding find_many delete_where
  find_many-delete_where [] = refl
  find_many-delete_where (a ∷ rows) = ground (arith, find_many-delete_where rows)

  find_many-update_where :
      (f : A → A)
      → ((a : A) → p (f a) ≡ false)
      → (rows : List A) → find_many p (update_where p f rows) ≡ []
  unfolding find_many update_where
  find_many-update_where f h [] = refl
  find_many-update_where f h (a ∷ rows) = ground (arith, h a, find_many-update_where f h rows)

-- Nothing in the tables refers to one of the contacts.
abbrev pub IsGone : List ℕ → World → Type 0
IsGone ids s =
    (find_many (λ (c : Contact). member ids c.id) s.contacts ≡ [])
    × (find_many (of_contacts ids) s.enquiries ≡ [])
    × (find_many (λ (m : Message). member ids m.contact_id) s.messages ≡ [])
    × (find_many (λ (m : InboundMessage). is_from ids m.contact_id) s.inbox ≡ [])

delete_rows-IsGone :
    (ids : List ℕ) (s : World) → IsGone ids (delete_rows ids (delete_enquiries ids s))
delete_rows-IsGone ids s = (
  find_many-delete_where (λ (c : Contact). member ids c.id) s.contacts,
  none_remains ids (lost_enquiries ids s.enquiries) s.enquiries (enquiries-Covered ids s.enquiries),
  find_many-delete_where (λ (m : Message). member ids m.contact_id) _,
  find_many-update_where (λ (m : InboundMessage). is_from ids m.contact_id)
      (λ m. record m { contact_id = none }) (λ m. refl) s.inbox,
)

-- A bulk deletion of contacts happens whole or not at all: with an open enquiry of one of them it is
-- refused as a bad request and changes nothing, and otherwise it returns how many there were and
-- leaves none of them, no enquiry or message of theirs, and no raw message that refers to them.
pub delete_contacts-IsGone :
    (ids : List ℕ) (s : World)
    → ((0 < open_count ids s) × (delete_contacts ids s ≡ (err bad_request, s)))
      ⊎ ((open_count ids s ≡ 0)
          × ((delete_contacts ids s).0
              ≡ ok (length (find_many (λ (c : Contact). member ids c.id) s.contacts)))
          × IsGone ids (delete_contacts ids s).1)
unfolding delete_contacts
delete_contacts-IsGone ids s = elim (Bool-cases (ltb 0 (open_count ids s))) [
  | inl o ↦ inl (ground (arith, o), ground (arith, o))
  | inr o ↦ inr (
    ground (arith, o),
    ground (arith, o),
    subst (λ w. IsGone ids w) {x = delete_rows ids (delete_enquiries ids s)}
        {y = (delete_contacts ids s).1} (ground (arith, o)) (delete_rows-IsGone ids s),
  )
]
