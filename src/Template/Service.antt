-- ===== src/Template/Service.antt =====
-- The methods of backend/src/modules/template/template.service.ts that write. A P2002 is the name that
-- another template has; the stamp in a copy's name is an argument.
use bravi_ai.Template.Engine.{ParsedVariable, parse_body, compile_body}
use bravi_ai.Template.Fields.{classify_variable, source_for_label}
use bravi_ai.Prelude.{
  ℕ, Bool, true, false, not, ◌&&◌, String, Option, none, some, List, ◌∷◌, map, ◌==◌, str_eq,
  or_else, is_some, if◌then◌else◌, find_first, update_where, delete_where,
}
use bravi_ai.Data.{
  Env, MessageChannel, MessageTemplate, TemplateVariable, TemplateType, WaContentType,
  WaTemplateCategory, WaApprovalStatus, World,
}
use bravi_ai.Exec.{
  Exec, pure, reads, writes, found, throw_if, ◌>>=◌, ◌>>◌, not_found, bad_request, conflict,
  forbidden, not_unique,
}
use bravi_ai.Text.{concat}

abbrev pub variable_of : ParsedVariable → TemplateVariable
variable_of v = record {
  position = v.position;
  label = v.label;
  source = source_for_label v.label;
  type = classify_variable v.label;
}

unfoldable pub build_variables : String → List TemplateVariable
build_variables body = map variable_of (parse_body body)

abbrev pub is_supported : MessageChannel → Bool
is_supported MessageChannel.whatsapp = true
is_supported MessageChannel.email = true
is_supported MessageChannel.sms = false

abbrev pub is_whatsapp : TemplateType → Bool
is_whatsapp TemplateType.whatsapp = true
is_whatsapp TemplateType.internal = false

-- isWhatsApp ? compileBody(body) : null
abbrev pub compiled_for : TemplateType → String → Option String
compiled_for type body = if is_whatsapp type then some (compile_body body) else none

abbrev pub first_status : TemplateType → Option WaApprovalStatus
first_status type = if is_whatsapp type then some WaApprovalStatus.draft else none

abbrev pub is_email : MessageChannel → Bool
is_email MessageChannel.email = true
is_email _ = false

pub record CreateTemplate : Type 0 where
  pub type : TemplateType
  pub name : String
  pub friendly_name : String
  pub channel : MessageChannel
  pub language : Option String
  pub body : String
  pub subject : Option String
  pub content_type : Option WaContentType
  pub category : Option WaTemplateCategory
  pub internal_category : Option String
  pub is_active : Option Bool
  pub used_count : Option ℕ

abbrev pub template_of : Env → (user : String) → CreateTemplate → MessageTemplate
template_of env user dto = record {
  id = env.row_id;
  type = dto.type;
  name = dto.name;
  friendly_name = dto.friendly_name;
  channel = dto.channel;
  language = or_else dto.language "en";
  body = dto.body;
  body_compiled = compiled_for dto.type dto.body;
  subject = if is_email dto.channel then dto.subject else none;
  content_type = or_else dto.content_type WaContentType.text;
  category = if is_whatsapp dto.type then dto.category else none;
  approval_status = first_status dto.type;
  is_active = or_else dto.is_active true;
  used_count = or_else dto.used_count 0;
  internal_category = dto.internal_category;
  created_by = user;
  variables = build_variables dto.body;
}

abbrev pub has_name : String → MessageTemplate → Bool
has_name name t = str_eq t.name name

abbrev pub name_taken : String → World → Bool
name_taken name s = is_some (find_first (has_name name) s.templates)

abbrev pub add_template : MessageTemplate → Exec (Unit {0})
add_template t = writes λ s. record s { templates = t ∷ s.templates }

unfoldable pub create_template : Env → CreateTemplate → (user : String) → Exec MessageTemplate
unfolding build_variables
create_template env dto user = do
  throw_if (not (is_supported dto.channel)) bad_request
  taken ← reads (name_taken dto.name)
  throw_if taken conflict
  add_template (template_of env user dto)
  pure (template_of env user dto)

abbrev pub template_by : ℕ → MessageTemplate → Bool
template_by id t = t.id == id

-- findOne
abbrev pub find_template : ℕ → Exec MessageTemplate
find_template id = do row ← reads λ s. find_first (template_by id) s.templates; found row not_found

abbrev pub is_submitted : Option WaApprovalStatus → Bool
is_submitted none = false
is_submitted (some WaApprovalStatus.draft) = false
is_submitted (some _) = true

abbrev pub is_frozen : MessageTemplate → Bool
is_frozen t = is_whatsapp t.type && is_submitted t.approval_status

pub record UpdateTemplate : Type 0 where
  pub type : Option TemplateType
  pub name : Option String
  pub friendly_name : Option String
  pub channel : Option MessageChannel
  pub language : Option String
  pub body : Option String
  pub subject : Option String
  pub content_type : Option WaContentType
  pub category : Option WaTemplateCategory
  pub internal_category : Option String
  pub is_active : Option Bool
  pub used_count : Option ℕ

abbrev pub or_kept {ℓ} : {A : Type ℓ} → Option A → Option A → Option A
or_kept none old = old
or_kept (some a) old = some a

abbrev pub new_compiled : Option String → TemplateType → Option String → Option String
new_compiled none type old = old
new_compiled (some body) type old = compiled_for type body

abbrev pub body_changed : Option String → String → Bool
body_changed none old = false
body_changed (some body) old = not (str_eq body old)

abbrev pub new_variables : Bool → Option String → List TemplateVariable → List TemplateVariable
new_variables changed body old = if changed then build_variables (or_else body "") else old

abbrev pub edit_template : UpdateTemplate → MessageTemplate → MessageTemplate
edit_template dto t = record t {
  type = or_else dto.type t.type;
  name = or_else dto.name t.name;
  friendly_name = or_else dto.friendly_name t.friendly_name;
  channel = or_else dto.channel t.channel;
  language = or_else dto.language t.language;
  subject = or_kept dto.subject t.subject;
  content_type = or_else dto.content_type t.content_type;
  category = or_kept dto.category t.category;
  is_active = or_else dto.is_active t.is_active;
  internal_category = or_kept dto.internal_category t.internal_category;
  used_count = or_else dto.used_count t.used_count;
  body = or_else dto.body t.body;
  body_compiled = new_compiled dto.body (or_else dto.type t.type) t.body_compiled;
  variables = new_variables (body_changed dto.body t.body) dto.body t.variables;
}

-- Whether the new name is another template's.
abbrev pub renames_to_taken : ℕ → Option String → World → Bool
renames_to_taken id none s = false
renames_to_taken id (some name) s =
    is_some (find_first (λ t. has_name name t && not (template_by id t)) s.templates)

abbrev pub put_template : ℕ → (MessageTemplate → MessageTemplate) → Exec (Unit {0})
put_template id f = writes λ s. record s { templates = update_where (template_by id) f s.templates }

abbrev pub is_unsupported : Option MessageChannel → Bool
is_unsupported none = false
is_unsupported (some channel) = not (is_supported channel)

unfoldable pub update_template : ℕ → UpdateTemplate → Exec MessageTemplate
unfolding build_variables
update_template id dto = do
  t ← find_template id
  throw_if (is_frozen t) forbidden
  throw_if (is_unsupported dto.channel) bad_request
  taken ← reads (renames_to_taken id dto.name)
  throw_if taken conflict
  put_template id (edit_template dto)
  pure (edit_template dto t)

unfoldable pub remove_template : ℕ → Exec (Unit {0})
remove_template id = do
  t ← find_template id
  writes λ s. record s { templates = delete_where (template_by id) s.templates }

abbrev pub copy_of : Env → (stamp : String) → MessageTemplate → MessageTemplate
copy_of env stamp t = record t {
  id = env.row_id;
  name = concat t.name (concat "_copy_" stamp);
  friendly_name = concat t.friendly_name " (copy)";
  body_compiled = compiled_for t.type t.body;
  approval_status = first_status t.type;
  variables = build_variables t.body;
}

unfoldable pub duplicate : Env → (stamp : String) → ℕ → Exec MessageTemplate
unfolding build_variables
duplicate env stamp id = do
  t ← find_template id
  taken ← reads (name_taken (copy_of env stamp t).name)
  throw_if taken not_unique
  add_template (copy_of env stamp t)
  pure (copy_of env stamp t)
