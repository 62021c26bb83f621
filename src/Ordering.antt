-- ===== src/Ordering.antt =====
-- `orderBy: { key: 'desc' }` of a Prisma query: what the database promises of the order of the rows,
-- and that one order is left where no two rows have one key.
use mathlib.Core.List.{Permᴰ}
use mathlib.Core.List.Permᴰ
use mathlib.Core.List.Permᴰ.{nil, cons, swap, trans}
use bravi_ai.Chat.Paging.Unique.{Distinct}
use bravi_ai.Prelude.{
  ℕ, List, [], ◌∷◌, ◌≡◌, ◌≢◌, ◌≤◌, refl, sym, ap, subst, arith, All, ◌∙◌, insert_desc, sort_desc,
  Bool-cases, leb, inl, inr,
}

module _ {A : Type 0} where
  unfoldable pub IsDescending : (A → ℕ) → List A → Type 0
  IsDescending key [] = Unit
  IsDescending key (a ∷ rows) = All (λ b. key b ≤ key a) rows × IsDescending key rows

  -- The rows of a query are those of the table that it reads, the higher key first. The order of
  -- rows with one key is the database's choice.
  abbrev pub Orders : (A → ℕ) → (List A → List A) → Type 0
  Orders key order = (rows : List A) → Permᴰ rows (order rows) × IsDescending key (order rows)

  All-both :
      {P Q R : A → Type 0}
      → ((a : A) → P a → Q a → R a)
      → (rows : List A) → All P rows
      → All Q rows
      → All R rows
  All-both f [] p q = tt
  All-both f (a ∷ rows) p q = (f a p.0 q.0, All-both f rows p.1 q.1)

  pub Permᴰ-All : (P : A → Type 0) (xs ys : List A) → Permᴰ xs ys → All P xs → All P ys
  Permᴰ-All P _ _ nil h = tt
  Permᴰ-All P _ _ (cons e r) h = (subst P e h.0, Permᴰ-All P _ _ r h.1)
  Permᴰ-All P _ _ (swap e f) h = (subst P f h.1.0, (subst P e h.0, h.1.1))
  Permᴰ-All P _ _ (trans r q) h = Permᴰ-All P _ _ q (Permᴰ-All P _ _ r h)

  module _ (key : A → ℕ) where
    Permᴰ-Distinct : (xs ys : List A) → Permᴰ xs ys → Distinct key xs → Distinct key ys
    unfolding Distinct
    Permᴰ-Distinct _ _ nil d = tt
    Permᴰ-Distinct _ _ (cons {a = a} {b = b} {l₁ = xs} {l₂ = ys} e r) d = (
      Permᴰ-All (λ c. key b ≢ key c) xs ys r (subst (λ z. All (λ c. key z ≢ key c) xs) e d.0),
      Permᴰ-Distinct xs ys r d.1,
    )
    Permᴰ-Distinct _ _ (swap {l = xs} e f) d =
        let there = subst (λ z. All (λ x. key z ≢ key x) xs) f d.1.0 in
        let here = subst (λ z. All (λ x. key z ≢ key x) xs) e d.0.1 in
        ((λ p. d.0.0 (ap key e ∙ sym p ∙ sym (ap key f)), there), (here, d.1.1))
    Permᴰ-Distinct _ _ (trans {l₁ = xs} {l₂ = ys} {l₃ = zs} r q) d =
        Permᴰ-Distinct ys zs q (Permᴰ-Distinct xs ys r d)

    -- Two lists of the same rows, both the higher key first and with no key twice, are one list.
    one_order :
        (xs ys : List A)
        → ((P : A → Type 0) → All P xs → All P ys)
        → ((P : A → Type 0) → All P ys → All P xs)
        → IsDescending key xs
        → IsDescending key ys
        → Distinct key xs
        → Distinct key ys
        → xs ≡ ys
    unfolding IsDescending Distinct
    one_order [] [] f g u v d e = refl
    one_order [] (b ∷ ys) f g u v d e = absurd (omega (arith, (f (λ x. 1 ≤ 0) tt).0))
    one_order (a ∷ xs) [] f g u v d e = absurd (omega (arith, (g (λ x. 1 ≤ 0) tt).0))
    one_order (a ∷ xs) (b ∷ ys) f g u v d e =
        let up = (g (λ x. key x ≤ key b) (omega arith, v.0)).0 in
        let down = (f (λ x. key x ≤ key a) (omega arith, u.0)).0 in
        let same : a ≡ b =
          (g (λ x. key x ≡ key b → x ≡ b)
              (λ p. refl, All-both (λ x n m p. absurd (n (sym p))) ys e.0 e.0)).0
            (omega (arith, up, down)) in
        ap (λ l. a ∷ l)
          (one_order xs ys
            (λ P h.
              All-both (λ x n p. p (λ q. n (ap key (sym same) ∙ sym (ap key q)))) ys e.0
                (f (λ x. (x ≢ a) → P x) (λ n. absurd (n refl), All-both (λ x p q n. p) xs h h)).1)
            (λ P h.
              All-both (λ x n p. p (λ q. n (ap key same ∙ sym (ap key q)))) xs d.0
                (g (λ x. (x ≢ b) → P x) (λ n. absurd (n refl), All-both (λ x p q n. p) ys h h)).1)
            u.1 v.1 d.1 e.1)
        ∙ ap (λ c. c ∷ ys) same

    insert_desc-Permᴰ : (a : A) (rows : List A) → Permᴰ (a ∷ rows) (insert_desc key a rows)
    unfolding insert_desc
    insert_desc-Permᴰ a [] = Permᴰ.refl (a ∷ [])
    insert_desc-Permᴰ a (b ∷ rows) = elim (Bool-cases (leb (key b) (key a))) [
      | inl h ↦ rw h (Permᴰ.refl (a ∷ b ∷ rows))
      | inr h ↦ rw h (trans (swap refl refl) (cons refl (insert_desc-Permᴰ a rows)))
    ]

    insert_desc-IsDescending :
        (a : A) (rows : List A) → IsDescending key rows → IsDescending key (insert_desc key a rows)
    unfolding insert_desc IsDescending
    insert_desc-IsDescending a [] h = (tt, tt)
    insert_desc-IsDescending a (b ∷ rows) h = elim (Bool-cases (leb (key b) (key a))) [
      | inl p ↦
          let low : key b ≤ key a = ground (arith, p) in
          rw p ((low, All-both (λ x m n. omega (arith, m, low)) rows h.0 h.0), h)
      | inr p ↦
          let high : key a ≤ key b = ground (arith, p) in
          rw p (
            Permᴰ-All (λ x. key x ≤ key b) (a ∷ rows) (insert_desc key a rows)
                (insert_desc-Permᴰ a rows) (high, h.0),
            insert_desc-IsDescending a rows h.1,
          )
    ]

    sort_desc-Permᴰ : (rows : List A) → Permᴰ rows (sort_desc key rows)
    unfolding sort_desc
    sort_desc-Permᴰ [] = nil
    sort_desc-Permᴰ (a ∷ rows) =
        trans (cons refl (sort_desc-Permᴰ rows)) (insert_desc-Permᴰ a (sort_desc key rows))

    sort_desc-IsDescending : (rows : List A) → IsDescending key (sort_desc key rows)
    unfolding sort_desc IsDescending
    sort_desc-IsDescending [] = tt
    sort_desc-IsDescending (a ∷ rows) =
        insert_desc-IsDescending a (sort_desc key rows) (sort_desc-IsDescending rows)

    pub sort_desc-Orders : Orders key (sort_desc key)
    sort_desc-Orders rows = (sort_desc-Permᴰ rows, sort_desc-IsDescending rows)

    -- Where no two rows have one key, every order that the database may give is the same.
    pub order-sort_desc :
        (order : List A → List A) (rows : List A)
        → Orders key order
        → Distinct key rows
        → order rows ≡ sort_desc key rows
    order-sort_desc order rows o d =
        let (p, u) = o rows in
        let q = sort_desc-Permᴰ rows in
        one_order (order rows) (sort_desc key rows)
          (λ P h. Permᴰ-All P rows (sort_desc key rows) q (Permᴰ-All P _ _ (Permᴰ.symm p) h))
          (λ P h. Permᴰ-All P rows (order rows) p (Permᴰ-All P _ _ (Permᴰ.symm q) h)) u
          (sort_desc-IsDescending rows) (Permᴰ-Distinct rows (order rows) p d)
          (Permᴰ-Distinct rows (sort_desc key rows) q d)
