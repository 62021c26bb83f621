-- ===== src/Text.antt =====
-- The JavaScript text functions that the services call. `toLowerCase` is modelled on ASCII letters
-- (other characters are left), `trim` on the white space of ASCII and the no-break space.
use Prim.Native.Char.{Char, code}
use Prim.Native.String.{[], ◌∷◌}
pub use Prim.Native.String.{◌++◌ as concat}
use bravi_ai.Prelude.{
  ℕ, zero, suc, ◌-◌, Bool, true, false, ◌&&◌, ◌||◌, String, ◌==◌, leb, if◌then◌else◌, ◌≡◌, refl,
  ltb,
}

abbrev pub is_space : Char → Bool
is_space c = leb 9 (code c) && leb (code c) 13 || code c == 32 || code c == 160

abbrev pub is_empty : String → Bool
is_empty [] = true
is_empty (c ∷ s) = false

unfoldable pub trim_start : String → String
trim_start [] = []
trim_start (c ∷ s) = let rest = trim_start s in if is_space c then rest else c ∷ s

unfoldable pub trim_end : String → String
trim_end [] = []
trim_end (c ∷ s) = let rest = trim_end s in if is_space c && is_empty rest then [] else c ∷ rest

unfoldable pub trim : String → String
unfolding trim_start trim_end
trim s = trim_end (trim_start s)

unfoldable pub letter : String → ℕ → Char → Char
letter [] n d = d
letter (c ∷ s) zero d = c
letter (c ∷ s) (suc n) d = letter s n d

unfoldable pub lower_char : Char → Char
unfolding letter
lower_char c =
    if leb 65 (code c) && leb (code c) 90
    then letter "abcdefghijklmnopqrstuvwxyz" (code c - 65) c
    else c

unfoldable pub to_lower_case : String → String
unfolding lower_char
to_lower_case [] = []
to_lower_case (c ∷ s) = lower_char c ∷ to_lower_case s

lower_mixed : to_lower_case (trim " Ana@X.io ") ≡ "ana@x.io"
unfolding to_lower_case trim
lower_mixed = refl

-- The order of texts by their characters, as the default `sort` compares them (by code points).
unfoldable pub text_leb : String → String → Bool
text_leb [] t = true
text_leb (c ∷ s) [] = false
text_leb (c ∷ s) (d ∷ t) =
    let rest = text_leb s t in
    if ltb (code c) (code d) then true else if code c == code d then rest else false

-- s.substring(0, n)
unfoldable pub prefix : ℕ → String → String
prefix zero s = []
prefix (suc n) [] = []
prefix (suc n) (c ∷ s) = c ∷ prefix n s
