-- ===== src/Template/Compiled.antt =====
-- What parseBody and compileBody of backend/src/modules/template/template.engine.ts make of a body
-- with a marker.
use bravi_ai.Template.Scanning.{full, scan-joined}
use bravi_ai.Template.Tokens.{is_clean, tokens-marker}
use bravi_ai.Template.Variables.{CountFrom, HasLabels, IsPlaced, parse_body-IsNumbered}
use bravi_ai.Template.Engine.{
  Piece, marker, tokens, ParsedVariable, parse_body, compile_piece, compile_body, bracketed, joined,
}
use bravi_ai.Prelude.{List, [], ◌∷◌, ◌++◌, String, ◌≡◌, sym, ap, ◌∙◌, true, false, All, map, none}
use bravi_ai.Text.{concat, is_empty}
use Prim.Native.String.append
use text.Mathlib.TextLemmas.{append_assoc}

-- The pieces of a text, as compileBody writes them out.
abbrev pub compiled_with : List ParsedVariable → String → String
compiled_with vs s = joined (map (compile_piece vs) (tokens s))

joined-map_append :
    (f : Piece → String) (ps qs : List Piece)
    → joined (map f (ps ++ qs)) ≡ concat (joined (map f ps)) (joined (map f qs))
unfolding joined
joined-map_append f [] qs = sym (append.nil (joined (map f qs)))
joined-map_append f (p ∷ ps) qs =
    ap (concat (f p)) (joined-map_append f ps qs)
    ∙ sym (append_assoc (f p) (joined (map f ps)) (joined (map f qs)))

tokens-full : (raw : String) → joined (map full (tokens raw)) ≡ raw
unfolding tokens
tokens-full raw = scan-joined none raw ∙ append.nil raw

-- Of a body that has a text in brackets, which is not empty and has no bracket itself: the pieces of
-- the body are those before the brackets, a marker of the text, and those after, and they make up
-- the body; the positions of its variables are 1, 2, and so on, and their labels are not empty and
-- differ. The compiled body is what its pieces come to, in their order: text stays, so does a blank
-- marker, and any other marker gives way to the position of the variable that has its trimmed text
-- as label.
pub compile_body-IsPlaced :
    (pre t post : String)
    → is_clean t ≡ true
    → is_empty t ≡ false
    → let raw = concat pre (concat (bracketed t) post) in
      let vs = parse_body raw in
      (tokens raw ≡ tokens pre ++ (marker t ∷ tokens post))
      × (joined (map full (tokens raw)) ≡ raw)
      × CountFrom 1 vs
      × HasLabels vs
      × All (IsPlaced vs) (tokens raw)
      × (compile_body raw
          ≡ concat
              (compiled_with vs pre)
              (concat (compile_piece vs (marker t)) (compiled_with vs post)))
unfolding compile_body joined
compile_body-IsPlaced pre t post h n =
    let raw = concat pre (concat (bracketed t) post) in
    let vs = parse_body raw in
    let found = tokens-marker pre t post h n in
    let (a, b, c) = parse_body-IsNumbered raw in
    (
      found,
      tokens-full raw,
      a,
      b,
      c,
      ap (λ ps. joined (map (compile_piece vs) ps)) found
          ∙ joined-map_append (compile_piece vs) (tokens pre) (marker t ∷ tokens post),
    )
