-- ===== src/Chat/Direct/Key.antt =====
-- The key of a direct message in backend/src/modules/chat/chat.service.ts.
use Prim.Native.String.{[], ◌∷◌}
use text.Mathlib.TextEquality.{codes_equal}
use bravi_ai.Prelude.{String, ◌≡◌, refl, sym, true, false, arith, Bool-cases, inl, inr}
use bravi_ai.Text.{text_leb}
use bravi_ai.Chat.Channels.{dm_key}

-- The order of the two identifiers in the key does not depend on who asks.
text_leb-IsTotal : (s t : String) → text_leb s t ≡ false → text_leb t s ≡ true
unfolding text_leb
text_leb-IsTotal [] t h = ground (arith, h)
text_leb-IsTotal (c ∷ s) [] h = refl
text_leb-IsTotal (c ∷ s) (d ∷ t) h = ground (arith, text_leb-IsTotal s t)

text_leb-antisym : (s t : String) → text_leb s t ≡ true → text_leb t s ≡ true → s ≡ t
unfolding text_leb
text_leb-antisym [] [] h k = refl
text_leb-antisym [] (d ∷ t) h k = ground (arith, k)
text_leb-antisym (c ∷ s) [] h k = ground (arith, h)
text_leb-antisym (c ∷ s) (d ∷ t) h k =
    let same : c ≡ d = codes_equal c d (ground (arith, h, k)) in
    let rest : s ≡ t = text_leb-antisym s t (ground (arith, h, k)) (ground (arith, h, k)) in
    λ i. same i ∷ rest i

pub dm_key_comm : (a b : String) → dm_key a b ≡ dm_key b a
unfolding dm_key
dm_key_comm a b = elim (Bool-cases (text_leb a b)) [
  | inr e ↦ ground (arith, e, text_leb-IsTotal a b e)
  | inl e ↦ elim (Bool-cases (text_leb b a)) [
    | inr k ↦ ground (arith, e, k)
    | inl k ↦ let same : a ≡ b = text_leb-antisym a b e k in λ i. dm_key (same i) (sym same i)
  ]
]
