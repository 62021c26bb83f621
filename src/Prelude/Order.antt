-- ===== src/Prelude/Order.antt =====
-- `orderBy` on a list of rows, and `reverse`.
use Prim.Native.Nat.{ℕ}
use mathlib.Core.List.{List, [], ◌∷◌, ◌++◌}
use bravi_ai.Prelude.Tests.{leb, if◌then◌else◌}

module _ {ℓ} {A : Type ℓ} where
  -- A row goes before the first row with a key that is not higher.
  unfoldable pub insert_desc : (A → ℕ) → A → List A → List A
  insert_desc key a [] = a ∷ []
  insert_desc key a (b ∷ rows) =
      let rest = insert_desc key a rows in if leb (key b) (key a) then a ∷ b ∷ rows else b ∷ rest

  -- orderBy: { key: 'desc' }; rows with one key keep their order in the table.
  unfoldable pub sort_desc : (A → ℕ) → List A → List A
  sort_desc key [] = []
  sort_desc key (a ∷ rows) = insert_desc key a (sort_desc key rows)

  unfoldable pub reverse : List A → List A
  reverse [] = []
  reverse (a ∷ rows) = reverse rows ++ (a ∷ [])
