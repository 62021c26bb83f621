-- ===== src/Client/Preview.antt =====
-- What renderBody of frontend/lib/template-parse.ts leaves of a body.
use bravi_ai.Client.TemplateParse.{render_piece, render_body, Values, filled}
use bravi_ai.Template.Scanning.{full, scan-joined}
use bravi_ai.Template.Engine.{Piece, scan, plain, joined, marker, tokens}
use bravi_ai.Prelude.{[], ◌∷◌, ◌≡◌, map, none, ap, ◌∙◌, List, [], refl}
use Prim.Native.String.{String}
use Prim.Native.String.append

render_piece-full :
    (values : Values)
    → ((inner : String) → filled values inner ≡ none)
    → (ps : List Piece) → map (render_piece values) ps ≡ map full ps
unfolding render_piece
render_piece-full values h [] = refl
render_piece-full values h ((plain t) ∷ ps) = rw (render_piece-full values h ps) refl
render_piece-full values h (marker t ∷ ps) = rw (h t, render_piece-full values h ps) refl

-- Where no value is filled in, the rendered body is the body itself, brackets and blanks included.
pub render_body_keeps :
    (body : String) (values : Values)
    → ((inner : String) → filled values inner ≡ none)
    → render_body body values ≡ body
unfolding render_body tokens
render_body_keeps body values h =
    ap joined (render_piece-full values h (scan none body))
    ∙ scan-joined none body
    ∙ append.nil body
