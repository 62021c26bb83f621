-- ===== src/Template/Fields.antt =====
-- backend/src/modules/template/template-system-fields.ts: the labels that are filled in from the data, and
-- their sources. Business name and phone have no configuration behind them (findUsable passes none).
use bravi_ai.Prelude.{
  String, Option, none, some, List, [], ◌∷◌, str_eq, is_some, if◌then◌else◌, find_first, ◌≡◌, refl,
}
use bravi_ai.Data.{VariableType}
use bravi_ai.Text.{trim, to_lower_case}

pub record SystemFieldDef : Type 0 where
  pub label : String
  pub source : String

abbrev field : String → String → SystemFieldDef
field label source = record { label = label; source = source }

abbrev pub system_fields : List SystemFieldDef
system_fields =
    field "Customer Name" "contact.displayName"
    ∷ field "Customer Phone" "contact.phone"
    ∷ field "Customer Email" "contact.email"
    ∷ field "Product / Service" "enquiry.intent"
    ∷ field "Agent Name" "user.displayName"
    ∷ field "Business Name" "config.business_name"
    ∷ field "Business Phone" "config.business_phone"
    ∷ []

-- BY_LABEL
unfoldable pub get_system_field : String → Option SystemFieldDef
unfolding trim to_lower_case
get_system_field label =
    find_first (λ (f : SystemFieldDef). str_eq (to_lower_case f.label) (to_lower_case (trim label)))
      system_fields

-- classifyVariable
unfoldable pub classify_variable : String → VariableType
unfolding get_system_field
classify_variable label =
    if is_some (get_system_field label) then VariableType.system else VariableType.custom

abbrev source_of : Option SystemFieldDef → String
source_of none = "manual"
source_of (some f) = f.source

unfoldable pub source_for_label : String → String
unfolding get_system_field
source_for_label label = source_of (get_system_field label)

agent : source_for_label " agent NAME" ≡ "user.displayName"
unfolding source_for_label find_first
agent = refl
