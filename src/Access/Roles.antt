-- ===== src/Access/Roles.antt =====
-- backend/app/services/rbac_service.py, and `require_permission` of backend/app/security/permissions.py.
use timber_ops.Prelude.{
  ℕ, String, Bool, false, not, ◌&&◌, some, none, ◌==◌, nat_eq, string_eq, leb, any, lookup, insert,
  delete, count_where, first_where,
}
use timber_ops.Domain.Errors.{
  Result, ok, not_found, business_rule, permission_denied, ◌>>=◌, ◌>>◌, raise_if, or_raise,
}
use timber_ops.Store.Rows.{Uuid}
use timber_ops.Store.Db.{Env}
use timber_ops.Store.Session.{as_conflict}
use timber_ops.Access.Rows.{UserRole, RolePermission, AccessDb, flush_access}

-- Does a grant reach a permission with this code?
abbrev pub grants : String → AccessDb → RolePermission → Bool
grants code db g = elim (lookup g.permission_id db.permissions) [
  | none ↦ false
  | some p ↦ p.code == code
]

-- One role of a user, and one permission of that role.
abbrev pub role_grants : Uuid → String → AccessDb → Bool
role_grants role_id code db =
    any (λ g. g.1.role_id == role_id && grants code db g.1) db.role_permissions

unfoldable pub has_permission : Uuid → String → AccessDb → Bool
has_permission user_id code db =
    any (λ a. a.1.user_id == user_id && role_grants a.1.role_id code db) db.user_roles

-- `check_permission`, for the authenticated user
unfoldable pub require_permission : String → Uuid → AccessDb → Result Uuid
unfolding has_permission
require_permission code user_id db = do
  raise_if (not (has_permission user_id code db)) permission_denied
  ok user_id

abbrev pub assigned : Env → ℕ → Uuid → Uuid → AccessDb → AccessDb
assigned env draw user_id role_id db = record db {
  user_roles =
      insert (env.uuid draw) (record { user_id = user_id; role_id = role_id }) db.user_roles;
}

-- With `commit=False`: the caller commits.
unfoldable pub add_role : Env → ℕ → Uuid → Uuid → AccessDb → Result AccessDb
unfolding flush_access
add_role env draw user_id role_id db = do
  user ← or_raise (lookup user_id db.users) not_found
  role ← or_raise (lookup role_id db.roles) not_found
  flush_access (assigned env draw user_id role_id db)

unfoldable pub assign_role : Env → Uuid → Uuid → AccessDb → Result AccessDb
unfolding flush_access
assign_role env user_id role_id db = do
  user ← or_raise (lookup user_id db.users) not_found
  role ← or_raise (lookup role_id db.roles) not_found
  as_conflict (flush_access (assigned env 0 user_id role_id db))

abbrev pub is_assignment : Uuid → Uuid → UserRole → Bool
is_assignment user_id role_id a = a.user_id == user_id && a.role_id == role_id

abbrev pub has_role : Uuid → UserRole → Bool
has_role role_id a = a.role_id == role_id

abbrev pub unassigned : Uuid → AccessDb → AccessDb
unassigned id db = record db { user_roles = delete id db.user_roles }

-- The last administrator keeps the role.
unfoldable pub remove_role : Uuid → Uuid → AccessDb → Result AccessDb
unfolding flush_access
remove_role user_id role_id db = do
  assignment ← or_raise (first_where (is_assignment user_id role_id) db.user_roles) not_found
  role ← or_raise (lookup role_id db.roles) not_found
  raise_if (role.name == "ADMIN" && leb (count_where (has_role role_id) db.user_roles) 1)
      business_rule
  flush_access (unassigned assignment.0 db)
