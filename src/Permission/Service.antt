-- ===== src/Permission/Service.antt =====
-- The permission methods of backend/src/modules/permission/permission.service.ts
use bravi_ai.Text.{trim, to_lower_case}
use bravi_ai.Exec.{
  Exec, reads, ok, ◌>>◌, ◌>>=◌, throw_if, found, conflict, bad_request, not_found, writes,
}
use bravi_ai.Data.{Permission, Env, World, RolePermission}
use bravi_ai.Prelude.{
  ◌==◌, ℕ, String, List, Option, Bool, ◌∷◌, some, str_eq, [], false, if◌then◌else◌, none, true,
  is_some, ◌+◌, not, ◌&&◌, find_first, ◌||◌, map, update_where, delete_where,
}

abbrev pub permission_by : ℕ → Permission → Bool
permission_by id p = p.id == id

abbrev pub is_pair : String → String → Permission → Bool
is_pair action subject p = str_eq p.action action && str_eq p.subject subject

abbrev pub find_pair : String → String → Exec (Option Permission)
find_pair action subject = reads λ s. find_first (is_pair action subject) s.permissions

abbrev pub find_permission : ℕ → Exec (Option Permission)
find_permission id = reads λ s. find_first (permission_by id) s.permissions

abbrev pub insert_permission : Permission → Exec Permission
insert_permission p s = (ok p, record s { permissions = p ∷ s.permissions })

unfoldable pub create_permission : Env → (action subject : String) → Exec Permission
create_permission env action subject = do
  let a = to_lower_case action
  let b = to_lower_case subject
  existing ← find_pair a b
  throw_if (is_some existing) conflict
  insert_permission (record { id = env.row_id; action = a; subject = b })

-- defaultSubjectActions
abbrev pub default_actions : List String
default_actions = "create" ∷ "read" ∷ "update" ∷ "delete" ∷ []

unfoldable pub has_text : List String → String → Bool
has_text [] t = false
has_text (x ∷ xs) t = str_eq x t || has_text xs t

-- Array.from(new Set(actions)), without the empty text: the first of equal texts stays.
unfoldable pub unique_texts : List String → List String → List String
unfolding has_text
unique_texts seen [] = []
unique_texts seen (t ∷ ts) =
    let rest = unique_texts (t ∷ seen) ts in
    if has_text seen t || str_eq t "" then rest else t ∷ rest

abbrev pub clean_text : String → String
clean_text t = trim (to_lower_case t)

abbrev pub chosen_actions : Option (List String) → List String
chosen_actions none = default_actions
chosen_actions (some []) = default_actions
chosen_actions (some (t ∷ ts)) = t ∷ ts

-- The permissions created, and the actions skipped because they exist.
abbrev pub Outcome : Type 0
Outcome = List Permission × List String

abbrev pub note_created : Permission → Outcome → Outcome
note_created p r = (p ∷ r.0, r.1)

abbrev pub note_skipped : String → Outcome → Outcome
note_skipped action r = (r.0, action ∷ r.1)

abbrev pub create_unless : ℕ → (subject action : String) → Bool → World → World
create_unless id subject action true s = s
create_unless id subject action false s = record s {
  permissions = record { id = id; action = action; subject = subject } ∷ s.permissions;
}

abbrev pub add_outcome : ℕ → (subject action : String) → Bool → Outcome → Outcome
add_outcome id subject action true r = note_skipped action r
add_outcome id subject action false r =
    note_created (record { id = id; action = action; subject = subject }) r

abbrev pub pair_exists : (action subject : String) → World → Bool
pair_exists action subject s = is_some (find_first (is_pair action subject) s.permissions)

-- The loop over the actions; the rows take the identifiers from `id` on.
unfoldable pub provision : ℕ → (subject : String) → List String → World → Outcome × World
provision id subject [] s = (([], []), s)
provision id subject (action ∷ actions) s =
    let old = pair_exists action subject s in
    let (r, t) = provision (id + 1) subject actions (create_unless id subject action old s) in
    (add_outcome id subject action old r, t)

abbrev pub is_nil : List String → Bool
is_nil [] = true
is_nil (t ∷ ts) = false

abbrev pub run_provision : ℕ → String → List String → Exec Outcome
run_provision id subject actions s = let (r, t) = provision id subject actions s in (ok r, t)

unfoldable pub create_subject_bundle :
    Env → (subject : String) → Option (List String) → Exec Outcome
unfolding unique_texts
create_subject_bundle env subject actions = do
  let b = clean_text subject
  throw_if (str_eq b "") bad_request
  let unique = unique_texts [] (map clean_text (chosen_actions actions))
  throw_if (is_nil unique) bad_request
  run_provision env.row_id b unique

-- dto.action?.toLowerCase() ?? permission.action
abbrev pub lowered : Option String → String → String
lowered none old = old
lowered (some t) old = to_lower_case t

-- A conflict is another row with the new pair.
abbrev pub conflicts : ℕ → Option Permission → Bool
conflicts id none = false
conflicts id (some p) = not (p.id == id)

-- ...(dto.action && { action: newAction })
abbrev pub if_truthy : Option String → String → String → String
if_truthy none fresh old = old
if_truthy (some t) fresh old = if str_eq t "" then old else fresh

abbrev pub rename : Option String → Option String → String → String → Permission → Permission
rename action subject a b p = record p {
  action = if_truthy action a p.action;
  subject = if_truthy subject b p.subject;
}

abbrev pub pair_changes : String → String → Permission → Bool
pair_changes a b p = not (str_eq a p.action) || not (str_eq b p.subject)

unfoldable pub update_permission : ℕ → (action subject : Option String) → Exec (Unit {0})
update_permission id action subject = do
  row ← find_permission id
  p ← found row not_found
  let a = lowered action p.action
  let b = lowered subject p.subject
  other ← find_pair a b
  throw_if (pair_changes a b p && conflicts id other) conflict
  writes λ s. record s {
    permissions = update_where (permission_by id) (rename action subject a b) s.permissions;
  }

-- The assignments of the permission go with it (onDelete: Cascade).
unfoldable pub delete_permission : ℕ → Exec (Unit {0})
delete_permission id = do
  row ← find_permission id
  p ← found row not_found
  writes λ s. record s {
    permissions = delete_where (permission_by id) s.permissions;
    role_permissions =
        delete_where (λ (r : RolePermission). r.permission_id == id) s.role_permissions;
  }
