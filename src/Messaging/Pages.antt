-- ===== src/Messaging/Pages.antt =====
-- The pages of listConversations of backend/src/modules/messaging/messaging.service.ts, put together.
use bravi_ai.Messaging.Counts.{find_first_self}
use bravi_ai.Messaging.Reading.{one_if}
use bravi_ai.Ordering.{Orders, order-sort_desc}
use bravi_ai.Chat.Paging.Unique.{Distinct, All-sort_desc, All-find_many}
use bravi_ai.Store.{contact_by}
use bravi_ai.Messaging.Summary.{get_contact_summary}
use bravi_ai.Data.{Env, World, Draft, Contact}
use bravi_ai.Messaging.Conversations.{
  ConversationQuery, Conversation, pages_for, limit_of, conversations_of, or_number,
  list_conversations, listed, is_listed, page_of, seen_at, listed_rows,
}
use native.Mathlib.Nat.{lt-div-mul-add}
use bravi_ai.Prelude.{
  Bool, find_many, ℕ, List, insert_desc, sort_desc, length, ◌++◌, ◌≡◌, take, All, ◌+◌, ◌∷◌, ◌≤◌,
  suc, drop, arith, ◌∙◌, ap, zero, [], refl, sym, ◌<◌, some, Option, ◌==◌, ◌*◌, String, ◌-◌, none,
  find_first, ◌≢◌, if◌then◌else◌, false, Bool-cases, inl, subst, inr, true,
}

module _ {A : Type 0} where
  -- How many rows pass a test.
  abbrev pub tally : (A → Bool) → List A → ℕ
  tally p rows = length (find_many p rows)

  tally-append : (p : A → Bool) (xs ys : List A) → tally p (xs ++ ys) ≡ tally p xs + tally p ys
  unfolding find_many
  tally-append p [] ys = omega arith
  tally-append p (x ∷ xs) ys = ground (arith, tally-append p xs ys)

  tally-insert_desc :
      (p : A → Bool) (key : A → ℕ) (a : A) (rows : List A)
      → tally p (insert_desc key a rows) ≡ tally p (a ∷ rows)
  unfolding find_many insert_desc
  tally-insert_desc p key a [] = refl
  tally-insert_desc p key a (b ∷ rows) = ground (arith, tally-insert_desc p key a rows)

  tally-sort_desc :
      (p : A → Bool) (key : A → ℕ) (rows : List A) → tally p (sort_desc key rows) ≡ tally p rows
  unfolding find_many sort_desc
  tally-sort_desc p key [] = refl
  tally-sort_desc p key (a ∷ rows) =
      tally-insert_desc p key a (sort_desc key rows) ∙ ground (arith, tally-sort_desc p key rows)

  take-none : (n : ℕ) → take {A = A} n [] ≡ []
  take-none zero = refl
  take-none (suc n) = refl

  take-add : (m n : ℕ) (rows : List A) → take (m + n) rows ≡ take m rows ++ take n (drop m rows)
  take-add zero n rows = ap (λ i. take i rows) (omega arith)
  take-add (suc m) n [] = take-none (suc m + n) ∙ sym (take-none n)
  take-add (suc m) n (a ∷ rows) =
      let e : suc m + n ≡ suc (m + n) = omega arith in
      ap (λ i. take i (a ∷ rows)) e ∙ ap (λ xs. a ∷ xs) (take-add m n rows)

  take-all : (m : ℕ) (rows : List A) → length rows ≤ m → take m rows ≡ rows
  take-all zero [] h = refl
  take-all (suc m) [] h = refl
  take-all zero (a ∷ rows) h = absurd (omega (arith, h))
  take-all (suc m) (a ∷ rows) h = ap (λ xs. a ∷ xs) (take-all m rows (omega (arith, h)))

  All-take : (P : A → Type 0) (n : ℕ) (rows : List A) → All P rows → All P (take n rows)
  All-take P zero rows h = tt
  All-take P (suc n) [] h = tt
  All-take P (suc n) (a ∷ rows) h = (h.0, All-take P n rows h.1)

  All-drop : (P : A → Type 0) (n : ℕ) (rows : List A) → All P rows → All P (drop n rows)
  All-drop P zero rows h = h
  All-drop P (suc n) [] h = tt
  All-drop P (suc n) (a ∷ rows) h = All-drop P n rows h.1

-- The pages are enough for all rows.
pages_for-enough : (total limit : ℕ) → 0 < limit → total ≤ pages_for total limit * limit
pages_for-enough total limit h =
    let few : total + (limit - 1) < pages_for total limit * limit + limit = lt-div-mul-add h in
    omega (arith, few, h)

limit_of-positive : (query : ConversationQuery) → 0 < limit_of query
limit_of-positive query = positive query.limit
  where
    positive : (o : Option ℕ) → 0 < or_number o 30
    positive none = omega arith
    positive (some n) = ground arith

abbrev pub at_page : ConversationQuery → ℕ → ConversationQuery
at_page query n = record query { page = some n }

-- The conversations on the first `n` pages; `order n` is the order of the rows in the n-th request.
abbrev pub read_pages :
    (order : ℕ → List Contact → List Contact)
    → Env
    → ConversationQuery
    → Option String
    → World
    → ℕ
    → List Conversation
read_pages order env query user s zero = []
read_pages order env query user s (suc n) =
    read_pages order env query user s n
    ++ (list_conversations (order (suc n)) env (at_page query (suc n)) user s).data_

abbrev pub with_contact : ℕ → Conversation → Bool
with_contact k c = c.contact_id == k

module _ (s : World) (k : ℕ) where
  conversations-tally :
      (ds : List Draft) (cs : List Contact)
      → All (λ c. find_first (contact_by c.id) s.contacts ≡ some c) cs
      → tally (with_contact k) (conversations_of s ds cs) ≡ tally (contact_by k) cs
  unfolding conversations_of get_contact_summary find_many
  conversations-tally ds [] h = refl
  conversations-tally ds (c ∷ cs) h = rw h.0 (ground (arith, conversations-tally ds cs h.1))

module _ (env : Env) (query : ConversationQuery) (user : Option String) (s : World) (k : ℕ)
    (order : ℕ → List Contact → List Contact)
    (one : (n : ℕ) → order n (listed_rows query s) ≡ sort_desc seen_at (listed_rows query s))
    (known : All
      (λ c. find_first (contact_by c.id) s.contacts ≡ some c)
      (listed (sort_desc seen_at) query s)) where
  page-tally :
      (n : ℕ)
      → tally
          (with_contact k)
          (list_conversations (order (suc n)) env (at_page query (suc n)) user s).data_
        ≡ tally
            (contact_by k)
            (take (limit_of query) (drop (n * limit_of query) (listed (sort_desc seen_at) query s)))
  unfolding list_conversations listed is_listed
  page-tally n =
      let p : page_of (at_page query (suc n)) ≡ suc n = ground arith in
      let q : suc n - 1 ≡ n = omega arith in
      let rows =
        take (limit_of query) (drop (n * limit_of query) (listed (sort_desc seen_at) query s)) in
      rw (p, q, one (suc n))
        (tally-sort_desc (with_contact k) _ _
          ∙ conversations-tally s k _ rows (
              All-take _ (limit_of query) _
                (All-drop _ (n * limit_of query) (listed (sort_desc seen_at) query s) known)))

  pages-tally :
      (n : ℕ)
      → tally (with_contact k) (read_pages order env query user s n)
        ≡ tally (contact_by k) (take (n * limit_of query) (listed (sort_desc seen_at) query s))
  unfolding find_many
  pages-tally zero = let e : 0 * limit_of query ≡ 0 = omega arith in rw e refl
  pages-tally (suc n) =
      tally-append (with_contact k) (read_pages order env query user s n) _
      ∙ rw (pages-tally n, page-tally n)
          (sym (
            ap (λ i. tally (contact_by k) (take i (listed (sort_desc seen_at) query s)))
              (one_page_more n)
            ∙ ap (tally (contact_by k)) (
                take-add (n * limit_of query) (limit_of query) (listed (sort_desc seen_at) query s))
            ∙ tally-append (contact_by k)
                (take (n * limit_of query) (listed (sort_desc seen_at) query s)) _))
    where
      one_page_more : (n : ℕ) → suc n * limit_of query ≡ n * limit_of query + limit_of query
      one_page_more n = omega arith

no_tally :
    (k : ℕ) (p : Contact → Bool) (cs : List Contact)
    → All (λ b. k ≢ b.id) cs
    → tally (contact_by k) (find_many p cs) ≡ 0
unfolding find_many
no_tally k p [] h = refl
no_tally k p (a ∷ cs) h = ground (arith, h.0, no_tally k p cs h.1)

-- A row is listed once or not at all.
tally-listed :
    (p : Contact → Bool) (c : Contact) (cs : List Contact)
    → Distinct (λ (a : Contact). a.id) cs
    → find_first (contact_by c.id) cs ≡ some c
    → tally (contact_by c.id) (find_many p cs) ≡ one_if (p c)
unfolding find_many find_first Distinct
tally-listed p c [] d h = cc
tally-listed p c (a ∷ cs) d h = elim (Bool-cases (a.id == c.id)) [
  | inl e ↦
      let same : a ≡ c = ground (arith, e, h) in
      let none_left = no_tally c.id p cs (subst (λ x. All (λ b. x.id ≢ b.id) cs) same d.0) in
      rw same (once (p c) none_left)
  | inr e ↦ rw (other (p a) e) (tally-listed p c cs d.1 (rw e at h))
]
  where
    once :
        (b : Bool)
        → tally (contact_by c.id) (find_many p cs) ≡ 0
        → tally (contact_by c.id) (if b then c ∷ find_many p cs else find_many p cs) ≡ one_if b
    once true h = ground (arith, h)
    once false h = h

    other :
        (b : Bool)
        → (a.id == c.id) ≡ false
        → tally (contact_by c.id) (if b then a ∷ find_many p cs else find_many p cs)
          ≡ tally (contact_by c.id) (find_many p cs)
    other true e = rw e refl
    other false e = refl

module _ {A : Type 0} (key : A → ℕ) where
  length-insert_desc : (a : A) (rows : List A) → length (insert_desc key a rows) ≡ suc (length rows)
  unfolding insert_desc
  length-insert_desc a [] = refl
  length-insert_desc a (b ∷ rows) = ground (arith, length-insert_desc a rows)

  length-sort_desc : (rows : List A) → length (sort_desc key rows) ≡ length rows
  unfolding sort_desc
  length-sort_desc [] = refl
  length-sort_desc (a ∷ rows) =
      length-insert_desc a (sort_desc key rows) ∙ ap suc (length-sort_desc rows)

-- If the identifiers of the contacts are distinct, and no two contacts that meet the query were seen
-- at one time, the pages from the first to the last, as many as the first page says, show a stored
-- contact exactly once if it meets the query and has messages, and else not at all, whatever the size
-- of a page is and in whatever order, the latest seen first, the database gives the rows of each
-- request.
pub read_pages_complete :
    (order : ℕ → List Contact → List Contact) (env : Env) (query : ConversationQuery)
    (user : Option String) (s : World) (c : Contact)
    → ((n : ℕ) → Orders seen_at (order n))
    → Distinct seen_at (listed_rows query s)
    → Distinct (λ (a : Contact). a.id) s.contacts
    → find_first (contact_by c.id) s.contacts ≡ some c
    → let n = (list_conversations (order 1) env (at_page query 1) user s).total_pages in
      tally (with_contact c.id) (read_pages order env query user s n)
      ≡ one_if (is_listed query s.messages c)
unfolding list_conversations listed is_listed
read_pages_complete order env query user s c o t d here =
    let rows = listed (sort_desc seen_at) query s in
    let n = pages_for (length (listed_rows query s)) (limit_of query) in
    let known =
      All-sort_desc (λ a. find_first (contact_by a.id) s.contacts ≡ some a) seen_at _
        (All-find_many (λ a. find_first (contact_by a.id) s.contacts ≡ some a)
          (is_listed query s.messages) s.contacts (find_first_self s.contacts d)) in
    let enough =
      subst (λ k. k ≤ n * limit_of query) (sym (length-sort_desc seen_at (listed_rows query s)))
        (pages_for-enough (length (listed_rows query s)) (limit_of query)
          (limit_of-positive query)) in
    pages-tally env query user s c.id order
      (λ i. order-sort_desc seen_at (order i) (listed_rows query s) (o i) t) known n
    ∙ ap (tally (contact_by c.id)) (take-all (n * limit_of query) rows enough)
    ∙ tally-sort_desc (contact_by c.id) seen_at _
    ∙ tally-listed (is_listed query s.messages) c s.contacts d here
