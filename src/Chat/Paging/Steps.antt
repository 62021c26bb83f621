-- ===== src/Chat/Paging/Steps.antt =====
-- One page and the next one: the rows behind the cursor that a page gives.
use bravi_ai.Prelude.{
  subst, ℕ, zero, suc, List, [], ◌∷◌, ◌++◌, none, some, ◌≡◌, ◌≢◌, refl, sym, ap, arith, All, take,
  drop, length, ◌≤◌, ◌<◌, true, false, ◌+◌, ◌∙◌,
}
use bravi_ai.Chat.History.{behind, after_cursor, last_id, page}
use bravi_ai.Chat.Paging.Unique.{Distinct}
use mathlib.Core.List.{append_assoc}

module _ {ℓ} {A : Type ℓ} (id : A → ℕ) where
  All-middle :
      (P : A → Type 0) (front : List A) (a : A) (back : List A) → All P (front ++ (a ∷ back)) → P a
  All-middle P [] a back h = h.0
  All-middle P (x ∷ front) a back h = All-middle P front a back h.1

  -- The rows behind a row's identifier are those after it.
  behind-append :
      (front : List A) (a : A) (back : List A)
      → Distinct id (front ++ (a ∷ back))
      → behind id (id a) (front ++ (a ∷ back)) ≡ back
  unfolding behind Distinct
  behind-append [] a back h = ground arith
  behind-append (x ∷ front) a back h =
      ground (arith, All-middle (λ b. id x ≢ id b) front a back h.0, behind-append front a back h.1)

  -- A page that is not the last ends in a row, whose identifier it gives.
  last_split :
      (n : ℕ) (rows : List A)
      → n < length rows
      → (init : List A) × (a : A) × (last_id id (take (suc n) rows) ≡ some (id a))
        × (take (suc n) rows ≡ init ++ (a ∷ []))
        × (rows ≡ init ++ (a ∷ drop (suc n) rows))
  unfolding last_id
  last_split n [] h = ground (arith, h)
  last_split zero (a ∷ rows) h = ([], a, refl, refl, refl)
  last_split (suc n) (x ∷ rows) h =
      let r = last_split n rows (omega (arith, h)) in
      (x ∷ r.0, r.1, ground (arith, r.2), ap (λ l. x ∷ l) r.3, ap (λ l. x ∷ l) r.4)

  take_all : (n : ℕ) (rows : List A) → length rows ≤ n → take n rows ≡ rows
  take_all zero [] h = refl
  take_all zero (a ∷ rows) h = ground (arith, h)
  take_all (suc n) [] h = refl
  take_all (suc n) (a ∷ rows) h = ap (λ l. a ∷ l) (take_all n rows (omega (arith, h)))

  take-take : (n : ℕ) (rows : List A) → take n (take (suc n) rows) ≡ take n rows
  take-take zero rows = refl
  take-take (suc n) [] = refl
  take-take (suc n) (a ∷ rows) = ap (λ l. a ∷ l) (take-take n rows)

  length-take : (n : ℕ) (rows : List A) → n < length rows → length (take (suc n) rows) ≡ suc n
  length-take n [] h = ground (arith, h)
  length-take zero (a ∷ rows) h = refl
  length-take (suc n) (a ∷ rows) h = ap suc (length-take n rows (omega (arith, h)))

  -- The last page.
  pub page_rest :
      (limit : ℕ) (rows : List A) → length rows ≤ limit → page id limit rows ≡ (rows, none, false)
  unfolding page
  page_rest limit rows h = ground (arith, h, take_all (suc limit) rows (omega (arith, h)))

  pub page_more :
      (limit : ℕ) (rows : List A)
      → limit < length rows
      → page id limit rows ≡ (take limit rows, last_id id (take limit rows), true)
  unfolding page
  page_more limit rows h = ground (arith, h, length-take limit rows h, take-take limit rows)

  pub take-drop : (n : ℕ) (rows : List A) → take n rows ++ drop n rows ≡ rows
  take-drop zero rows = refl
  take-drop (suc n) [] = refl
  take-drop (suc n) (a ∷ rows) = ap (λ l. a ∷ l) (take-drop n rows)

  pub length-drop :
      (n : ℕ) (rows : List A) → n ≤ length rows → length (drop n rows) + n ≡ length rows
  length-drop zero rows h = omega arith
  length-drop (suc n) [] h = ground (arith, h)
  length-drop (suc n) (a ∷ rows) h = omega (arith, length-drop n rows (omega (arith, h)))

  -- The cursor of a page that is not the last leads to the rows after the page.
  pub behind-last_id :
      (n : ℕ) (front back : List A)
      → Distinct id (front ++ back)
      → n < length back
      → after_cursor id (last_id id (take (suc n) back)) (front ++ back) ≡ drop (suc n) back
  behind-last_id n front back d h =
      let r = last_split n back h in
      let cut : front ++ back ≡ (front ++ r.0) ++ (r.1 ∷ drop (suc n) back) =
        ap (λ l. front ++ l) r.4 ∙ sym (append_assoc front r.0 (r.1 ∷ drop (suc n) back)) in
      ap (λ c. after_cursor id c (front ++ back)) r.2
      ∙ ap (λ l. behind id (id r.1) l) cut
      ∙ behind-append (front ++ r.0) r.1 (drop (suc n) back) (subst (λ l. Distinct id l) cut d)
