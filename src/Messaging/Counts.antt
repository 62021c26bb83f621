-- ===== src/Messaging/Counts.antt =====
-- The unread counts of backend/src/modules/messaging/messaging.service.ts, counted by messages as the
-- query does and by contacts.
use bravi_ai.Store.{contact_by}
use bravi_ai.Data.{Contact, Message, MessageChannel, World, same_channel}
use bravi_ai.Messaging.Summary.{count_distinct, contact_ids, is_unread, unread_contacts}
use bravi_ai.Enquiry.Notes.{member}
use bravi_ai.Chat.Paging.Unique.{Distinct}
use bravi_ai.Prelude.{
  find_many, ℕ, Bool, find_first, List, All, is_some, ◌≡◌, ◌==◌, ◌∷◌, true, [], false, refl, length,
  ◌||◌, suc, Bool-cases, inl, inr, ◌≢◌, arith, if◌then◌else◌, ==_iff, All-map, ◌∙◌, ==_refl, ap,
  sym, subst, ◌&&◌, some, ltb,
}

absorbed : (xs : List ℕ) (x i : ℕ) → member xs x ≡ true → (x == i || member xs i) ≡ member xs i
absorbed xs x i h = elim (Bool-cases (x == i)) [
  | inl e ↦ let p : x ≡ i = (==_iff x i).0 e in rw e (sym (subst (λ j. member xs j ≡ true) p h))
  | inr e ↦ rw e refl
]

module _ {A : Type 0} where
  -- Two tests that agree on a table select the same rows of it.
  find_many-agree :
      (p q : A → Bool) (rows : List A)
      → All (λ a. p a ≡ q a) rows
      → find_many p rows ≡ find_many q rows
  unfolding find_many
  find_many-agree p q [] h = refl
  find_many-agree p q (a ∷ rows) h = rw (h.0, find_many-agree p q rows h.1) refl

  find_many-none : (rows : List A) → find_many (λ a. false) rows ≡ []
  unfolding find_many
  find_many-none [] = refl
  find_many-none (a ∷ rows) = find_many-none rows

  All-of : (P : A → Type 0) → ((a : A) → P a) → (rows : List A) → All P rows
  All-of P f [] = tt
  All-of P f (a ∷ rows) = (f a, All-of P f rows)

  module _ (id : A → ℕ) where
    -- Where identifiers differ, a new identifier in the set selects one row more.
    length-find_many_one_more :
        (x : ℕ) (set : ℕ → Bool) (rows : List A)
        → Distinct id rows
        → is_some (find_first (λ a. id a == x) rows) ≡ true
        → set x ≡ false
        → length (find_many (λ a. x == id a || set (id a)) rows)
          ≡ suc (length (find_many (λ a. set (id a)) rows))
    unfolding find_many find_first Distinct
    length-find_many_one_more x set [] d h n = cc
    length-find_many_one_more x set (a ∷ rows) d h n = elim (Bool-cases (id a == x)) [
      | inl e ↦
          let p : id a ≡ x = (==_iff (id a) x).0 e in
          let others : All (λ b. (x == id b || set (id b)) ≡ set (id b)) rows =
            All-map (λ b ne. apart b (λ q. ne (p ∙ q))) rows d.0 in
          rw
            (
              p,
              n,
              ==_refl x,
              find_many-agree (λ b. x == id b || set (id b)) (λ b. set (id b)) rows others,
            )
            refl
      | inr e ↦
          let ih = length-find_many_one_more x set rows d.1 (rw e at h) n in
          rw (swap (id a) x e) (
            one_more (set (id a)) (find_many (λ b. x == id b || set (id b)) rows)
              (find_many (λ b. set (id b)) rows) ih)
    ]
      where
        apart : (b : A) → x ≢ id b → (x == id b || set (id b)) ≡ set (id b)
        apart b ne = ground (arith, ne)

        swap : (i j : ℕ) → (i == j) ≡ false → (j == i) ≡ false
        swap i j e = ground (arith, e)

        one_more :
            (b : Bool) (xs ys : List A)
            → length xs ≡ suc (length ys)
            → length (if b then a ∷ xs else xs) ≡ suc (length (if b then a ∷ ys else ys))
        one_more true xs ys ih = rw ih refl
        one_more false xs ys ih = ih

    -- A set of identifiers that occur in the table has as many members as rows of it.
    count_distinct-rows :
        (rows : List A)
        → Distinct id rows
        → (xs : List ℕ) → All (λ x. is_some (find_first (λ a. id a == x) rows) ≡ true) xs
        → count_distinct xs ≡ length (find_many (λ a. member xs (id a)) rows)
    unfolding count_distinct member
    count_distinct-rows rows d [] h = rw (find_many-none rows) refl
    count_distinct-rows rows d (x ∷ xs) h = elim (Bool-cases (member xs x)) [
      | inl e ↦
          rw
            (
              e,
              find_many-agree (λ a. x == id a || member xs (id a)) (λ a. member xs (id a)) rows
                  (All-of (λ a. (x == id a || member xs (id a)) ≡ member xs (id a))
                    (λ a. absorbed xs x (id a) e) rows),
            )
            (count_distinct-rows rows d xs h.1)
      | inr e ↦
          rw (e, length-find_many_one_more x (member xs) rows d h.0 e)
            (ap suc (count_distinct-rows rows d xs h.1))
    ]

-- A row of a table whose identifiers differ is the one that its identifier finds.
pub find_first_self :
    (cs : List Contact)
    → Distinct (λ c. c.id) cs
    → All (λ c. find_first (contact_by c.id) cs ≡ some c) cs
unfolding find_first Distinct
find_first_self [] d = tt
find_first_self (a ∷ cs) d = (rw (==_refl a.id) refl, later cs d.0 (find_first_self cs d.1))
  where
    later :
        (bs : List Contact)
        → All (λ b. a.id ≢ b.id) bs
        → All (λ c. find_first (contact_by c.id) cs ≡ some c) bs
        → All (λ c. find_first (contact_by c.id) (a ∷ cs) ≡ some c) bs
    later [] n h = tt
    later (b ∷ bs) n h = (ground (arith, n, h), later bs n.1 h.1)

abbrev pub any_of : (Message → Bool) → List Message → Bool
any_of p [] = false
any_of p (m ∷ ms) = p m || any_of p ms

-- The contact has a message on the channel that is above its read mark.
abbrev pub has_unread : MessageChannel → List Message → Contact → Bool
has_unread channel ms c =
    any_of
      (λ m. m.contact_id == c.id && same_channel m.channel channel && ltb c.last_read_seq m.seq) ms

and_true : (b : Bool) → (b && true) ≡ b
and_true true = refl
and_true false = refl

pub and_false : (b : Bool) → (b && false) ≡ false
and_false true = refl
and_false false = refl

module _ (channel : MessageChannel) (cs : List Contact) where
  member-unread :
      (c : Contact)
      → find_first (contact_by c.id) cs ≡ some c
      → (ms : List Message)
      → member (contact_ids (find_many (is_unread channel cs) ms)) c.id ≡ has_unread channel ms c
  unfolding member find_many
  member-unread c h [] = refl
  member-unread c h (m ∷ ms) =
      counted (is_unread channel cs m) (find_many (is_unread channel cs) ms)
      ∙ rw (member-unread c h ms) (ap (λ b. b || has_unread channel ms c) own)
    where
      counted :
          (u : Bool) (rest : List Message)
          → member (contact_ids (if u then m ∷ rest else rest)) c.id
            ≡ (u && m.contact_id == c.id || member (contact_ids rest) c.id)
      counted true rest = refl
      counted false rest = refl

      own :
          (is_unread channel cs m && m.contact_id == c.id)
          ≡ (m.contact_id == c.id && same_channel m.channel channel && ltb c.last_read_seq m.seq)
      own = elim (Bool-cases (m.contact_id == c.id)) [
        | inl e ↦ rw ((==_iff m.contact_id c.id).0 e, h, ==_refl c.id) (and_true _)
        | inr e ↦ rw e (and_false (is_unread channel cs m))
      ]

  unread-found :
      (ms : List Message)
      → All
          (λ x. is_some (find_first (λ (a : Contact). a.id == x) cs) ≡ true)
          (contact_ids (find_many (is_unread channel cs) ms))
  unfolding find_many
  unread-found [] = tt
  unread-found (m ∷ ms) = ground (arith, unread-found ms)

-- If the identifiers of the contacts are distinct, each count of the unread summary, which counts
-- distinct contacts in a join of messages and contacts, is the number of contacts that have a
-- message on the channel above their read mark.
pub unread_contacts_rows :
    (channel : MessageChannel) (s : World)
    → Distinct (λ (c : Contact). c.id) s.contacts
    → unread_contacts channel s ≡ length (find_many (has_unread channel s.messages) s.contacts)
unread_contacts_rows channel s d =
    count_distinct-rows (λ (c : Contact). c.id) s.contacts d
      (contact_ids (find_many (is_unread channel s.contacts) s.messages))
      (unread-found channel s.contacts s.messages)
    ∙ ap length (
        find_many-agree _ (has_unread channel s.messages) s.contacts (
          All-map (λ c h. member-unread channel s.contacts c h s.messages) s.contacts
            (find_first_self s.contacts d)))
