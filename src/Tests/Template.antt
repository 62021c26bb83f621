-- ===== src/Tests/Template.antt =====
-- Message templates at small inputs.
use bravi_ai.Prelude.{String, ◌≡◌, refl, ◌∷◌, [], some, none, inr, All}
use bravi_ai.Data.{TemplateType, MessageChannel, MessageTemplate}
use bravi_ai.Tests.Sample.{world, env}
use bravi_ai.Template.Engine.{tokens, parse_body, marker, joined, compile_body, compile_piece}
use bravi_ai.Template.Variables.{CountFrom, HasLabels, IsPlaced}
use bravi_ai.Template.Compiled.{compile_body-IsPlaced, compiled_with}
use bravi_ai.Template.Scanning.{full}
use bravi_ai.Template.Tokens.{is_clean}
use bravi_ai.Text.{concat}
use bravi_ai.Prelude.{◌++◌, map}
use bravi_ai.Template.Service.{UpdateTemplate, template_of, CreateTemplate}
use bravi_ai.Data.{WaApprovalStatus}
use bravi_ai.Tests.Sample.{later}
use bravi_ai.Prelude.{find_first}
use bravi_ai.Template.Service.{template_by}
use bravi_ai.Template.Rows.{
  run_template-is_frozen, TemplateCall, run_template, IsFaithful, run_template-IsFaithful,
}

compile_body-IsPlaced_example :
    let raw : String = "Hi [Name], [ ] [Day] [ Name ]" in
    let vs = parse_body raw in
    (tokens raw ≡ tokens "Hi [Name], [ ] " ++ (marker "Day" ∷ tokens " [ Name ]"))
    × (joined (map full (tokens raw)) ≡ raw)
    × CountFrom 1 vs
    × HasLabels vs
    × All (IsPlaced vs) (tokens raw)
    × (compile_body raw
        ≡ concat
            (compiled_with vs "Hi [Name], [ ] ")
            (concat (compile_piece vs (marker "Day")) (compiled_with vs " [ Name ]")))
unfolding is_clean
compile_body-IsPlaced_example = compile_body-IsPlaced "Hi [Name], [ ] " "Day" " [ Name ]" refl refl

abbrev greeting : CreateTemplate
greeting = record {
  type = TemplateType.whatsapp;
  name = "greeting";
  friendly_name = "Greeting";
  channel = MessageChannel.whatsapp;
  language = none;
  body = "Hi [Name]";
  subject = none;
  content_type = none;
  category = none;
  internal_category = none;
  is_active = none;
  used_count = none;
}

abbrev new_body : UpdateTemplate
new_body = record {
  type = some TemplateType.internal;
  name = none;
  friendly_name = none;
  channel = none;
  language = none;
  body = some "Hello [Name] of [Town]";
  subject = none;
  content_type = none;
  category = none;
  internal_category = none;
  is_active = none;
  used_count = none;
}

run_template-IsFaithful_example :
    All IsFaithful
      (run_template env
        (TemplateCall.rework 50 new_body)
        (record world { templates = template_of env "u1" greeting ∷ [] })).templates
run_template-IsFaithful_example =
    run_template-IsFaithful env (TemplateCall.rework 50 new_body)
      (record world { templates = template_of env "u1" greeting ∷ [] }) (inr refl)
      ((refl, refl), tt)

abbrev submitted : MessageTemplate
submitted = record (template_of env "u1" greeting) {
  approval_status = some WaApprovalStatus.pending;
}

run_template-is_frozen_example :
    find_first
      (template_by 50)
      (run_template later
        (TemplateCall.rework 50 new_body)
        (record world { templates = submitted ∷ [] })).templates
    ≡ some submitted
unfolding find_first
run_template-is_frozen_example =
    run_template-is_frozen later (TemplateCall.rework 50 new_body)
      (record world { templates = submitted ∷ [] }) 50 submitted refl refl tt refl
