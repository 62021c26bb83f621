-- ===== src/Template/Tokens.antt =====
-- Which parts of a body are markers for backend/src/modules/template/template.engine.ts.
use Prim.Native.Char.{Char, code}
use Prim.Native.String.{[] as nil, ◌∷◌ as ◌:>◌}
use Prim.Native.String.append
use text.Mathlib.TextLemmas.{append-nil, append_assoc}
use mathlib.Core.List.{append_assoc as list_append_assoc}
use bravi_ai.Prelude.{
  Bool, true, false, not, ◌&&◌, ◌||◌, String, Option, none, some, [], ◌∷◌, ◌++◌, ◌≡◌, sym, ap,
  subst, ◌∙◌, arith, ◌==◌, if◌then◌else◌,
}
use bravi_ai.Text.{concat, is_empty}
use bravi_ai.Template.Engine.{plain, marker, one, step, scan, tokens, bracketed}

-- A text without brackets.
unfoldable pub is_clean : String → Bool
is_clean nil = true
is_clean (c :> t) = not (code c == 91 || code c == 93) && is_clean t

one_cons : (c : Char) (t : String) → concat (one c) t ≡ c :> t
one_cons c t = append.cons c nil t ∙ ap (λ v. c :> v) (append.nil t)

-- An open bracket ends what is open and opens.
scan-open :
    (before : Option String) (pre s : String)
    → scan before (concat pre ("[" :> s)) ≡ scan before pre ++ scan (some "") s
unfolding scan
scan-open none nil s = ap (λ x. scan none x) (append.nil ("[" :> s))
scan-open (some t) nil s = ap (λ x. scan (some t) x) (append.nil ("[" :> s))
scan-open before (c :> pre) s =
    ap (λ x. scan before x) (append.cons c pre ("[" :> s))
    ∙ ap (λ l. (step before c).0 ++ l) (scan-open (step before c).1 pre s)
    ∙ sym (list_append_assoc (step before c).0 (scan (step before c).1 pre) (scan (some "") s))

-- A clean text is read up to its bracket.
scan-clean :
    (u t post : String)
    → is_clean t ≡ true
    → is_empty (concat u t) ≡ false
    → scan (some u) (concat t ("]" :> post)) ≡ marker (concat u t) ∷ scan none post
unfolding scan is_clean
scan-clean u nil post h n =
    let full : is_empty u ≡ false = subst (λ v. is_empty v ≡ false) (append-nil u) n in
    ap (λ x. scan (some u) x) (append.nil ("]" :> post))
    ∙ ap (λ b. (if b then plain "[]" else marker u) ∷ scan none post) full
    ∙ ap (λ v. marker v ∷ scan none post) (sym (append-nil u))
scan-clean u (c :> t) post h n =
    let longer : concat (concat u (one c)) t ≡ concat u (c :> t) =
      append_assoc u (one c) t ∙ ap (λ v. concat u v) (one_cons c t) in
    let read : step (some u) c ≡ ([], some (concat u (one c))) = ground (arith, h) in
    ap (λ x. scan (some u) x) (append.cons c t ("]" :> post))
    ∙ ap (λ r. r.0 ++ scan r.1 (concat t ("]" :> post))) read
    ∙ scan-clean (concat u (one c)) t post (ground (arith, h))
        (subst (λ v. is_empty v ≡ false) (sym longer) n)
    ∙ ap (λ v. marker v ∷ scan none post) longer

-- A text in brackets is a marker wherever it stands: when it is not empty and has no bracket itself, the
-- pieces of a body around it are those of the part before it, the marker, and those of the part
-- after it.
pub tokens-marker :
    (pre t post : String)
    → is_clean t ≡ true
    → is_empty t ≡ false
    → tokens (concat pre (concat (bracketed t) post)) ≡ tokens pre ++ (marker t ∷ tokens post)
unfolding tokens
tokens-marker pre t post h n =
    let inside = concat t ("]" :> post) in
    let written : concat (bracketed t) post ≡ "[" :> inside =
      append_assoc "[" (concat t "]") post
      ∙ one_cons "[" (concat (concat t "]") post)
      ∙ ap (λ v. "[" :> v) (append_assoc t "]" post ∙ ap (λ v. concat t v) (one_cons "]" post)) in
    ap (λ v. scan none (concat pre v)) written
    ∙ scan-open none pre inside
    ∙ ap (λ l. scan none pre ++ l)
        (scan-clean "" t post h (subst (λ v. is_empty v ≡ false) (sym (append.nil t)) n)
          ∙ ap (λ v. marker v ∷ scan none post) (append.nil t))
