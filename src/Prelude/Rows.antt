-- ===== src/Prelude/Rows.antt =====
-- A database table as a list of rows: the lookups and writes by a Boolean test.
use mathlib.Core.Path.{◌≡◌, refl}
use mathlib.Core.Bool.{Bool, true, false}
use mathlib.Core.List.{List, [], ◌∷◌}
use mathlib.Core.Option
use mathlib.Core.Option.{Option, none, some}
use native.Mathlib.Omega.{arith}
use bravi_ai.Prelude.Lists.{All}
use bravi_ai.Prelude.Tests.{if◌then◌else◌}

module _ {ℓ} {A : Type ℓ} where
  -- findUnique, findFirst: the first row that passes the test.
  unfoldable pub find_first : (A → Bool) → List A → Option A
  find_first p [] = none
  find_first p (a ∷ rows) = if p a then some a else find_first p rows

  -- findMany
  unfoldable pub find_many : (A → Bool) → List A → List A
  find_many p [] = []
  find_many p (a ∷ rows) = let rest = find_many p rows in if p a then a ∷ rest else rest

  abbrev pub edit : (A → Bool) → (A → A) → A → A
  edit p f a = if p a then f a else a

  -- update, updateMany
  unfoldable pub update_where : (A → Bool) → (A → A) → List A → List A
  update_where p f [] = []
  update_where p f (a ∷ rows) = edit p f a ∷ update_where p f rows

  -- delete, deleteMany
  unfoldable pub delete_where : (A → Bool) → List A → List A
  delete_where p [] = []
  delete_where p (a ∷ rows) = let rest = delete_where p rows in if p a then rest else a ∷ rest

  -- An update that no lookup test can tell shows through a lookup as the edit of the row found.
  pub find_first-update_where :
      (p q : A → Bool) (f : A → A)
      → ((a : A) → q (f a) ≡ q a)
      → (rows : List A)
      → find_first q (update_where p f rows) ≡ Option.map (edit p f) (find_first q rows)
  unfolding find_first update_where
  find_first-update_where p q f h [] = refl
  find_first-update_where p q f h (a ∷ rows) =
      ground (arith, h a, find_first-update_where p q f h rows)

  pub find_first-IsTrue :
      (q : A → Bool) (rows : List A) (a : A) → find_first q rows ≡ some a → q a ≡ true
  unfolding find_first
  find_first-IsTrue q [] a e = cc
  find_first-IsTrue q (b ∷ rows) a e = ground (arith, find_first-IsTrue q rows a)

  -- A deletion hides a row or leaves what a lookup of unique rows finds.
  pub find_first-delete_where :
      (p q : A → Bool) (rows : List A)
      → ((a : A) → q a ≡ true → p a ≡ false)
      → find_first q (delete_where p rows) ≡ find_first q rows
  unfolding find_first delete_where
  find_first-delete_where p q [] h = refl
  find_first-delete_where p q (a ∷ rows) h = ground (arith, h a, find_first-delete_where p q rows h)

  pub find_first-delete_where_hidden :
      (p q : A → Bool) (rows : List A)
      → ((a : A) → q a ≡ true → p a ≡ true)
      → find_first q (delete_where p rows) ≡ none
  unfolding find_first delete_where
  find_first-delete_where_hidden p q [] h = refl
  find_first-delete_where_hidden p q (a ∷ rows) h =
      ground (arith, h a, find_first-delete_where_hidden p q rows h)

-- What all rows have, after edits that keep it and deletions.
module _ {A : Type 0} (P : A → Type 0) (p : A → Bool) where
  pub All-update_where :
      (f : A → A) (rows : List A)
      → ((a : A) → P a → P (f a))
      → All P rows
      → All P (update_where p f rows)
  unfolding update_where
  All-update_where f [] h x = tt
  All-update_where f (a ∷ rows) h x = ground (arith, h a, x, All-update_where f rows h x.1)

  pub All-delete_where : (rows : List A) → All P rows → All P (delete_where p rows)
  unfolding delete_where
  All-delete_where [] x = tt
  All-delete_where (a ∷ rows) x = ground (arith, x, All-delete_where rows x.1)

  pub All-find_first : (rows : List A) (a : A) → find_first p rows ≡ some a → All P rows → P a
  unfolding find_first
  All-find_first [] a e x = ground (arith, e)
  All-find_first (b ∷ rows) a e x = ground (arith, e, x, All-find_first rows a)
