-- ===== src/Client/TemplateParse.antt =====
-- frontend/lib/template-parse.ts: the preview of a template in the browser. It has the same MARKER_RE as
-- backend/src/modules/template/template.engine.ts, and the same loop in parseTemplateVariables.
use bravi_ai.Store.{truthy}
use bravi_ai.Template.Fields.{get_system_field}
use bravi_ai.Template.Engine.{
  tokens, collect, bracketed, Piece, joined, ParsedVariable, plain, marker,
}
use bravi_ai.Text.{trim, concat}
use bravi_ai.Prelude.{
  ◌∷◌, [], List, Option, none, some, Bool, [], if◌then◌else◌, map, is_some, ◌≡◌, str_eq, String,
  refl,
}

-- values[label]?.trim(), if that is not empty
abbrev pub Values : Type 0
Values = List (String × String)

unfoldable pub value_of : String → Values → Option String
value_of label [] = none
value_of label ((l, v) ∷ values) =
    let rest = value_of label values in if str_eq l label then some v else rest

abbrev pub trimmed_value : Option String → Option String
trimmed_value none = none
trimmed_value (some v) = truthy (some (trim v))

abbrev pub filled : Values → String → Option String
filled values inner = trimmed_value (value_of (trim inner) values)

abbrev pub or_marker : Option String → String → String
or_marker none inner = bracketed inner
or_marker (some v) inner = v

unfoldable pub render_piece : Values → Piece → String
unfolding value_of trim
render_piece values (plain t) = t
render_piece values (marker inner) = or_marker (filled values inner) inner

unfoldable pub render_body : String → Values → String
unfolding render_piece tokens joined
render_body body values = joined (map (render_piece values) (tokens body))

unfoldable pub parse_template_variables : String → List ParsedVariable
unfolding collect tokens
parse_template_variables body = collect [] (tokens body)

unfoldable pub is_system_label : String → Bool
unfolding get_system_field
is_system_label label = is_some (get_system_field label)

pub data PreviewToken : Type 0 where
  text : String → PreviewToken
  var : (label : String) → (value : Option String) → PreviewToken

-- Neighbouring pieces of text are one token.
abbrev pub add_text : String → List PreviewToken → List PreviewToken
add_text t (text u ∷ rest) = text (concat t u) ∷ rest
add_text t [] = text t ∷ []
add_text t (var label value ∷ rest) = text t ∷ var label value ∷ rest

unfoldable pub preview_tokens : Values → List Piece → List PreviewToken
unfolding value_of trim
preview_tokens values [] = []
preview_tokens values (plain t ∷ ps) = add_text t (preview_tokens values ps)
preview_tokens values (marker inner ∷ ps) =
    var (trim inner) (filled values inner) ∷ preview_tokens values ps

unfoldable pub tokenize_body : String → Values → List PreviewToken
unfolding preview_tokens tokens
tokenize_body body values = preview_tokens values (tokens body)

previewed :
    tokenize_body "Hi [ Name ], [x]" (("Name", " Ana ") ∷ [])
    ≡ text "Hi " ∷ var "Name" (some "Ana") ∷ text ", " ∷ var "x" none ∷ []
unfolding tokenize_body
previewed = refl
