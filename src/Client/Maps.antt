-- ===== src/Client/Maps.antt =====
-- JavaScript objects that are used as maps: a list of keys with their values. The order of the keys
-- is not used.
use bravi_ai.Prelude.{ℕ, List, Option, ◌∷◌, ◌≡◌, none, if◌then◌else◌, [], ◌==◌, some, arith, refl}

module _ {ℓ} {A : Type ℓ} where
  -- m[k]
  unfoldable pub get : ℕ → List (ℕ × A) → Option A
  get k [] = none
  get k ((j, a) ∷ m) = if j == k then some a else get k m

  -- { ...m, [k]: a }
  unfoldable pub put_key : ℕ → A → List (ℕ × A) → List (ℕ × A)
  put_key k a [] = (k, a) ∷ []
  put_key k a ((j, b) ∷ m) =
      let rest = put_key k a m in if j == k then (k, a) ∷ m else (j, b) ∷ rest

  -- delete m[k]
  unfoldable pub remove_key : ℕ → List (ℕ × A) → List (ℕ × A)
  remove_key k [] = []
  remove_key k ((j, a) ∷ m) = let rest = remove_key k m in if j == k then rest else (j, a) ∷ rest

  -- Object.values(m)
  unfoldable pub values : List (ℕ × A) → List A
  values [] = []
  values ((j, a) ∷ m) = a ∷ values m

  pub get-put_key :
      (k i : ℕ) (a : A) (m : List (ℕ × A))
      → get i (put_key k a m) ≡ (if k == i then some a else get i m)
  unfolding get put_key
  get-put_key k i a [] = refl
  get-put_key k i a ((j, b) ∷ m) = ground (arith, get-put_key k i a m)
