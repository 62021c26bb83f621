-- ===== src/Template/Rows.antt =====
-- What stays true of the rows of templates under the calls of
-- backend/src/modules/template/template.service.ts that write.
use bravi_ai.Template.Service.{
  CreateTemplate, UpdateTemplate, create_template, update_template, remove_template, duplicate,
  build_variables, compiled_for, edit_template, template_by, is_frozen,
}
use bravi_ai.Prelude.{
  All-update_where, All-delete_where, ℕ, true, String, none, ◌≡◌, ◌⊎◌, arith, All, is_some, or_else,
  eq_iff, ◌==◌, find_first, false, some, find_first-IsTrue, find_first-update_where,
  find_first-delete_where, refl,
}
use bravi_ai.Data.{Env, World, MessageTemplate}

pub data TemplateCall : Type 0 where
  make : CreateTemplate → (user : String) → TemplateCall
  rework : ℕ → UpdateTemplate → TemplateCall
  erase : ℕ → TemplateCall
  copy : (stamp : String) → ℕ → TemplateCall

-- The world after a call, returned or thrown.
unfoldable pub run_template : Env → TemplateCall → World → World
run_template env (make dto user) s = (create_template env dto user s).1
run_template env (rework id dto) s = (update_template id dto s).1
run_template env (erase id) s = (remove_template id s).1
run_template env (copy stamp id) s = (duplicate env stamp id s).1

-- The variables and the compiled body are those of the body.
abbrev pub IsFaithful : MessageTemplate → Type 0
IsFaithful t =
    (t.variables ≡ build_variables t.body) × (t.body_compiled ≡ compiled_for t.type t.body)

-- Not an update of the type without the body.
abbrev pub IsWhole : TemplateCall → Type 0
IsWhole (rework id dto) = (dto.type ≡ none) ⊎ (is_some dto.body ≡ true)
IsWhole _ = Unit

edit_template-IsFaithful :
    (dto : UpdateTemplate) (t : MessageTemplate)
    → (dto.type ≡ none) ⊎ (is_some dto.body ≡ true)
    → IsFaithful t
    → IsFaithful (edit_template dto t)
edit_template-IsFaithful dto t w h =
    (ground (arith, h, eq_iff (or_else dto.body "") t.body), ground (arith, h, w))

-- The rows of templates stay faithful to their bodies: each writing call of TemplateService, returned or
-- thrown, keeps it that every template has the variables of its body in their order, and the
-- compiled body if it is a WhatsApp template and none if not, but for an update of the type that
-- does not give the body.
pub run_template-IsFaithful :
    (env : Env) (call : TemplateCall) (s : World)
    → IsWhole call
    → All IsFaithful s.templates
    → All IsFaithful (run_template env call s).templates
unfolding run_template create_template update_template remove_template duplicate
run_template-IsFaithful env (make dto user) s w a = ground (arith, a)
run_template-IsFaithful env (rework id dto) s w a = ground (
  arith,
  a,
  All-update_where IsFaithful (template_by id) (edit_template dto) s.templates
      (λ t. edit_template-IsFaithful dto t w) a,
)
run_template-IsFaithful env (erase id) s w a =
    ground (arith, a, All-delete_where IsFaithful (template_by id) s.templates a)
run_template-IsFaithful env (copy stamp id) s w a = ground (arith, a)

-- Not the removal of the template.
abbrev pub Spares : ℕ → TemplateCall → Type 0
Spares id (erase i) = (i == id) ≡ false
Spares id _ = Unit

-- A WhatsApp template that was submitted is frozen: when an identifier finds one, every writing call of
-- TemplateService but its removal, returned or thrown, leaves it as it is, if the identifier of a
-- new template is another.
pub run_template-is_frozen :
    (env : Env) (call : TemplateCall) (s : World) (id : ℕ) (t : MessageTemplate)
    → find_first (template_by id) s.templates ≡ some t
    → is_frozen t ≡ true
    → Spares id call
    → (env.row_id == id) ≡ false
    → find_first (template_by id) (run_template env call s).templates ≡ some t
unfolding run_template create_template update_template remove_template duplicate find_first
run_template-is_frozen env (make dto user) s id t f z w n = ground (arith, f, n)
run_template-is_frozen env (rework i dto) s id t f z w n = ground (
  arith,
  f,
  z,
  find_first-IsTrue (template_by id) s.templates t f,
  find_first-update_where (template_by i) (template_by id) (edit_template dto) (λ x. refl)
      s.templates,
)
run_template-is_frozen env (erase i) s id t f z w n = ground (
  arith,
  f,
  w,
  find_first-delete_where (template_by i) (template_by id) s.templates
      (λ a e. ground (arith, e, w)),
)
run_template-is_frozen env (copy stamp i) s id t f z w n = ground (arith, f, n)
