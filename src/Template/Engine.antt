-- ===== src/Template/Engine.antt =====
-- backend/src/modules/template/template.engine.ts: the [Label] markers of a body, their variables, and
-- the body in Meta's positional form. MARKER_RE is read by a scanner with the text since the last
-- open bracket as its state.
use Prim.Native.Char.{Char, code}
use Prim.Native.String.{[] as nil, ◌∷◌ as ◌:>◌}
use bravi_ai.Prelude.{
  ℕ, suc, zero, ◌+◌, ◌/◌, Bool, String, Option, none, some, List, [], ◌∷◌, ◌++◌, map, ◌==◌, ltb,
  str_eq, is_some, if◌then◌else◌, length, find_first, ◌≡◌, refl,
}
use Prim.Native.Nat.{◌%◌}
use bravi_ai.Text.{concat, is_empty, trim, letter}

pub data Piece : Type 0 where
  plain marker : String → Piece

abbrev pub one : Char → String
one c = c :> nil

-- One character after no open bracket, or after one and the text behind it.
abbrev pub step : Option String → Char → List Piece × Option String
step none c = if code c == 91 then ([], some "") else (plain (one c) ∷ [], none)
step (some t) c =
    if code c == 93
    then ((if is_empty t then plain "[]" else marker t) ∷ [], none)
    else if code c == 91
    then (plain (concat "[" t) ∷ [], some "")
    else ([], some (concat t (one c)))

-- What is open at the end is no marker.
abbrev pub flush : Option String → List Piece
flush none = []
flush (some t) = plain (concat "[" t) ∷ []

unfoldable pub scan : Option String → String → List Piece
scan before nil = flush before
scan before (c :> s) = let (out, next) = step before c in out ++ scan next s

-- The text between the markers, and the markers.
unfoldable pub tokens : String → List Piece
unfolding scan
tokens s = scan none s

pub record ParsedVariable : Type 0 where
  pub label : String
  pub position : ℕ

abbrev pub has_label : String → ParsedVariable → Bool
has_label t v = str_eq v.label t

-- One marker: a label that is empty, or has a position, adds nothing.
abbrev pub add_label : String → List ParsedVariable → List ParsedVariable
add_label t out =
    if is_empty t
    then out
    else if is_some (find_first (has_label t) out)
    then out
    else out ++ (record { label = t; position = length out + 1 } ∷ [])

unfoldable pub collect : List ParsedVariable → List Piece → List ParsedVariable
unfolding trim
collect out [] = out
collect out (plain t ∷ ps) = collect out ps
collect out (marker t ∷ ps) = collect (add_label (trim t) out) ps

unfoldable pub parse_body : String → List ParsedVariable
unfolding collect tokens
parse_body raw = collect [] (tokens raw)

-- A number as JavaScript writes it in a text, by its digits.
unfoldable pub digits : (fuel : ℕ) → ℕ → String
unfolding letter
digits zero n = ""
digits (suc fuel) n =
    let rest = digits fuel (n / 10) in
    let last = one (letter "0123456789" (n % 10) "0") in if ltb n 10 then last else concat rest last

unfoldable pub decimal : ℕ → String
unfolding digits
decimal n = digits (suc n) n

twelve : decimal 120 ≡ "120"
unfolding decimal
twelve = refl

abbrev pub bracketed : String → String
bracketed t = concat "[" (concat t "]")

abbrev pub placeholder : ℕ → String
placeholder n = concat "{{" (concat (decimal n) "}}")

abbrev pub position_of : Option ParsedVariable → ℕ
position_of none = 0
position_of (some v) = v.position

-- `pos ? … : full`
abbrev pub placeholder_or : String → ℕ → String
placeholder_or full zero = full
placeholder_or full (suc n) = placeholder (suc n)

unfoldable pub compile_piece : List ParsedVariable → Piece → String
unfolding trim decimal
compile_piece vs (plain t) = t
compile_piece vs (marker t) =
    if is_empty (trim t)
    then bracketed t
    else placeholder_or (bracketed t) (position_of (find_first (has_label (trim t)) vs))

unfoldable pub joined : List String → String
joined [] = ""
joined (t ∷ ts) = concat t (joined ts)

unfoldable pub compile_body : String → String
unfolding parse_body compile_piece joined
compile_body raw = joined (map (compile_piece (parse_body raw)) (tokens raw))

compiled : compile_body "Hi [ Name ], [[x][Name] [" ≡ "Hi {{1}}, [{{2}}{{1}} ["
unfolding compile_body find_first
compiled = refl
