-- ===== src/Chat/Paging/Unique.antt =====
-- Rows with different identifiers stay so in the order of a query.
use bravi_ai.Prelude.{
  ℕ, Bool, List, [], ◌∷◌, ◌≢◌, sym, arith, find_many, insert_desc, sort_desc, All,
}

module _ {ℓ} {A : Type ℓ} where
  -- No two rows have one identifier.
  unfoldable pub Distinct : (A → ℕ) → List A → Type 0
  Distinct id [] = Unit
  Distinct id (a ∷ rows) = All (λ b. id a ≢ id b) rows × Distinct id rows

  module _ {κ} (P : A → Type κ) where
    pub All-find_many : (q : A → Bool) (rows : List A) → All P rows → All P (find_many q rows)
    unfolding find_many
    All-find_many q [] h = tt
    All-find_many q (a ∷ rows) h = ground (arith, h, All-find_many q rows h.1)

    All-insert_desc :
        (key : A → ℕ) (a : A) (rows : List A) → P a → All P rows → All P (insert_desc key a rows)
    unfolding insert_desc
    All-insert_desc key a [] p h = (p, tt)
    All-insert_desc key a (b ∷ rows) p h = ground (arith, h, p, All-insert_desc key a rows p h.1)

    pub All-sort_desc : (key : A → ℕ) (rows : List A) → All P rows → All P (sort_desc key rows)
    unfolding sort_desc
    All-sort_desc key [] h = tt
    All-sort_desc key (a ∷ rows) h =
        All-insert_desc key a (sort_desc key rows) h.0 (All-sort_desc key rows h.1)

  module _ (id : A → ℕ) where
    pub find_many-Distinct :
        (q : A → Bool) (rows : List A) → Distinct id rows → Distinct id (find_many q rows)
    unfolding find_many Distinct
    find_many-Distinct q [] h = tt
    find_many-Distinct q (a ∷ rows) h =
        ground
          (arith, h, All-find_many (λ b. id a ≢ id b) q rows h.0, find_many-Distinct q rows h.1)

    insert_desc-Distinct :
        (key : A → ℕ) (a : A) (rows : List A)
        → All (λ b. id a ≢ id b) rows
        → Distinct id rows
        → Distinct id (insert_desc key a rows)
    unfolding insert_desc Distinct
    insert_desc-Distinct key a [] n h = (tt, tt)
    insert_desc-Distinct key a (b ∷ rows) n h = ground (
      arith,
      n,
      h,
      insert_desc-Distinct key a rows n.1 h.1,
      All-insert_desc (λ x. id b ≢ id x) key a rows (λ e. n.0 (sym e)) h.0,
    )

    pub sort_desc-Distinct :
        (key : A → ℕ) (rows : List A) → Distinct id rows → Distinct id (sort_desc key rows)
    unfolding sort_desc Distinct
    sort_desc-Distinct key [] h = tt
    sort_desc-Distinct key (a ∷ rows) h =
        insert_desc-Distinct key a (sort_desc key rows)
          (All-sort_desc (λ b. id a ≢ id b) key rows h.0) (sort_desc-Distinct key rows h.1)
