-- ===== src/Permission/Roles.antt =====
-- The role assignments of backend/src/modules/permission/permission.service.ts
use bravi_ai.Permission.Service.{find_permission, permission_by}
use bravi_ai.Exec.{Exec, reads, ok, ◌>>=◌, pure, found, not_found, ◌>>◌, writes, throw_if, conflict}
use bravi_ai.Data.{RolePermission, Env, World}
use bravi_ai.Prelude.{
  ◌==◌, Option, ℕ, String, List, Bool, some, str_eq, false, not, none, is_some, ◌∷◌, ◌&&◌,
  find_first, ◌||◌, true, ◌+◌, length, [], find_many, delete_where, or_else, update_where,
}

abbrev pub Conditions : Type 0
Conditions = Option (List (String × String))

abbrev pub assignment_by : ℕ → RolePermission → Bool
assignment_by id r = r.id == id

abbrev pub is_grant : String → ℕ → RolePermission → Bool
is_grant role permission_id r = str_eq r.role role && r.permission_id == permission_id

abbrev pub find_grant : String → ℕ → Exec (Option RolePermission)
find_grant role permission_id =
    reads λ s. find_first (is_grant role permission_id) s.role_permissions

abbrev pub insert_grant : RolePermission → Exec RolePermission
insert_grant r s = (ok r, record s { role_permissions = r ∷ s.role_permissions })

unfoldable pub create_role_permission : Env → String → ℕ → Conditions → Exec RolePermission
create_role_permission env role permission_id conditions = do
  row ← find_permission permission_id
  p ← found row not_found
  existing ← find_grant role permission_id
  throw_if (is_some existing) conflict
  insert_grant (record {
    id = env.row_id;
    role = role;
    permission_id = permission_id;
    conditions = conditions;
  })

abbrev pub find_assignment : ℕ → Exec (Option RolePermission)
find_assignment id = reads λ s. find_first (assignment_by id) s.role_permissions

-- if (dto.permissionId) the permission has to exist
abbrev pub check_permission : Option ℕ → Exec (Unit {0})
check_permission none = pure tt
check_permission (some id) = do row ← find_permission id; p ← found row not_found; pure tt

abbrev pub other_grant : ℕ → Option RolePermission → Bool
other_grant id none = false
other_grant id (some r) = not (r.id == id)

abbrev pub grant_changes : String → ℕ → RolePermission → Bool
grant_changes role permission_id r =
    not (str_eq role r.role) || not (permission_id == r.permission_id)

abbrev pub keep_conditions : Option Conditions → Conditions → Conditions
keep_conditions none old = old
keep_conditions (some c) old = c

abbrev pub regrant : String → ℕ → Option Conditions → RolePermission → RolePermission
regrant role permission_id conditions r = record r {
  role = role;
  permission_id = permission_id;
  conditions = keep_conditions conditions r.conditions;
}

-- The outer option of `conditions` is whether the field is given.
unfoldable pub update_role_permission :
    ℕ → (role : Option String) → (permission_id : Option ℕ) → Option Conditions → Exec (Unit {0})
update_role_permission id role permission_id conditions = do
  row ← find_assignment id
  r ← found row not_found
  check_permission permission_id
  let new_role = or_else role r.role
  let new_id = or_else permission_id r.permission_id
  other ← find_grant new_role new_id
  throw_if (grant_changes new_role new_id r && other_grant id other) conflict
  writes λ s. record s {
    role_permissions =
        update_where (assignment_by id) (regrant new_role new_id conditions) s.role_permissions;
  }

unfoldable pub delete_role_permission : ℕ → Exec (Unit {0})
delete_role_permission id = do
  row ← find_assignment id
  r ← found row not_found
  writes λ s. record s { role_permissions = delete_where (assignment_by id) s.role_permissions }

-- One entry of the bulk assignment is created only if its permission exists and the role lacks it.
abbrev pub grantable : String → ℕ → World → Bool
grantable role permission_id s =
    is_some (find_first (permission_by permission_id) s.permissions)
    && not (is_some (find_first (is_grant role permission_id) s.role_permissions))

abbrev pub grant_if : ℕ → String → ℕ → Conditions → Bool → World → World
grant_if id role permission_id conditions false s = s
grant_if id role permission_id conditions true s = record s {
  role_permissions =
      record { id = id; role = role; permission_id = permission_id; conditions = conditions }
      ∷ s.role_permissions;
}

abbrev pub sort_out : ℕ → Bool → List ℕ × List ℕ → List ℕ × List ℕ
sort_out permission_id true r = (permission_id ∷ r.0, r.1)
sort_out permission_id false r = (r.0, permission_id ∷ r.1)

-- bulkAssignRolePermissions: the permissions assigned, and those skipped.
unfoldable pub bulk_assign : ℕ → String → List (ℕ × Conditions) → World → (List ℕ × List ℕ) × World
bulk_assign id role [] s = (([], []), s)
bulk_assign id role ((permission_id, conditions) ∷ entries) s =
    let b = grantable role permission_id s in
    let (r, t) =
      bulk_assign (id + 1) role entries (grant_if id role permission_id conditions b s) in
    (sort_out permission_id b r, t)

unfoldable pub clear_role_permissions : String → Exec ℕ
clear_role_permissions role s = (
  ok (length (find_many (λ (r : RolePermission). str_eq r.role role) s.role_permissions)),
  record s {
    role_permissions = delete_where (λ (r : RolePermission). str_eq r.role role) s.role_permissions;
  },
)
