-- ===== src/Template/Scanning.antt =====
-- The text of the pieces that backend/src/modules/template/template.engine.ts and
-- frontend/lib/template-parse.ts read from a body.
use bravi_ai.Text.{concat, is_empty}
use bravi_ai.Template.Engine.{Piece, scan, plain, joined, marker, bracketed, one}
use bravi_ai.Prelude.{
  Option, some, ◌≡◌, ◌==◌, true, map, none, sym, ap, ◌∙◌, ==_iff, Bool-cases, inl, inr,
  if◌then◌else◌, refl,
}
use Prim.Native.Char.{Char, code, char}
use Prim.Native.String.{[] as nil, ◌∷◌ as ◌:>◌, String}
use Prim.Native.String.append
use text.Mathlib.TextLemmas.{append_assoc}
use text.Mathlib.TextEquality.{Char-path}

-- The text that the scanner has read and not given out.
abbrev pub pending_text : Option String → String
pending_text none = ""
pending_text (some t) = concat "[" t

abbrev pub full : Piece → String
full (plain t) = t
full (marker t) = bracketed t

cons_one : (c : Char) (s : String) → c :> s ≡ concat (one c) s
cons_one c s = sym (append.cons c nil s ∙ ap (λ v. c :> v) (append.nil s))

open_char : (c : Char) → (code c == 91) ≡ true → one c ≡ "["
open_char c h = ap one (Char-path c (char 91 tt) ((==_iff (code c) 91).0 h))

close_char : (c : Char) → (code c == 93) ≡ true → one c ≡ "]"
close_char c h = ap one (Char-path c (char 93 tt) ((==_iff (code c) 93).0 h))

-- The pieces of a text, with their brackets, are the text.
pub scan-joined :
    (before : Option String) (s : String)
    → joined (map full (scan before s)) ≡ concat (pending_text before) s
unfolding scan joined
scan-joined none nil = refl
scan-joined (some t) nil = refl
scan-joined none (c :> s) = elim (Bool-cases (code c == 91)) [
  | inl h ↦ rw h (
      scan-joined (some "") s
      ∙ ap (λ v. concat v s) (sym (open_char c h))
      ∙ sym (cons_one c s)
      ∙ sym (append.nil (c :> s)))
  | inr h ↦ rw h (
      ap (concat (one c)) (scan-joined none s ∙ append.nil s)
      ∙ sym (cons_one c s)
      ∙ sym (append.nil (c :> s)))
]
scan-joined (some t) (c :> s) = elim (Bool-cases (code c == 93)) [
  | inl h ↦ rw h (
      ap (concat _) (scan-joined none s ∙ append.nil s)
      ∙ ap (λ v. concat v s) (closed t ∙ sym (append_assoc "[" t "]"))
      ∙ append_assoc (concat "[" t) "]" s
      ∙ ap (λ v. concat (concat "[" t) (concat v s)) (sym (close_char c h))
      ∙ ap (concat (concat "[" t)) (sym (cons_one c s)))
  | inr n ↦ elim (Bool-cases (code c == 91)) [
    | inl h ↦
        rw (n, h)
          (ap (concat (concat "[" t)) (
            scan-joined (some "") s
            ∙ ap (λ v. concat v s) (sym (open_char c h))
            ∙ sym (cons_one c s)))
    | inr h ↦
        rw (n, h)
          (scan-joined (some (concat t (one c))) s
            ∙ ap (λ v. concat v s) (sym (append_assoc "[" t (one c)))
            ∙ append_assoc (concat "[" t) (one c) s
            ∙ ap (concat (concat "[" t)) (sym (cons_one c s)))
  ]
]
  where
    closed : (t : String) → full (if is_empty t then plain "[]" else marker t) ≡ bracketed t
    closed nil = refl
    closed (d :> u) = refl
