-- ===== src/Access/Rows.antt =====
-- The tables of backend/app/models/rbac.py beside that of the users, with their constraints.
use timber_ops.Prelude.{
  String, Bool, not, ◌&&◌, Option, ◌==◌, nat_eq, string_eq, all, distinct, is_none, Table, lookup,
  has_unique_keys, if◌then◌else◌,
}
use timber_ops.Domain.Errors.{Result, ok, err, integrity_error}
use timber_ops.Store.Rows.{Uuid, Time, User}

pub record Role : Type 0 where
  pub name : String
  pub description : Option String
  pub created_at : Time
  pub updated_at : Time

pub record Permission : Type 0 where
  pub code : String
  pub name : String
  pub description : Option String
  pub created_at : Time

pub record UserRole : Type 0 where
  pub user_id : Uuid
  pub role_id : Uuid

pub record RolePermission : Type 0 where
  pub role_id : Uuid
  pub permission_id : Uuid

pub record AccessDb : Type 0 where
  pub users : Table User
  pub roles : Table Role
  pub permissions : Table Permission
  pub user_roles : Table UserRole
  pub role_permissions : Table RolePermission

-- Two role assignments, or two grants, that are the same.
abbrev pub same_assignment : UserRole → UserRole → Bool
same_assignment a b = a.user_id == b.user_id && a.role_id == b.role_id

abbrev same_grant : RolePermission → RolePermission → Bool
same_grant a b = a.role_id == b.role_id && a.permission_id == b.permission_id

abbrev has_row : {V : Type 0} → Uuid → Table V → Bool
has_row k t = not (is_none (lookup k t))

unfoldable pub access_ok : AccessDb → Bool
access_ok db =
    has_unique_keys db.users
    && distinct (λ a b. a.1.username == b.1.username) db.users
    && has_unique_keys db.roles
    && distinct (λ a b. a.1.name == b.1.name) db.roles
    && has_unique_keys db.permissions
    && distinct (λ a b. a.1.code == b.1.code) db.permissions
    && has_unique_keys db.user_roles
    && distinct (λ a b. same_assignment a.1 b.1) db.user_roles
    && all (λ r. has_row r.1.user_id db.users && has_row r.1.role_id db.roles) db.user_roles
    && has_unique_keys db.role_permissions
    && distinct (λ a b. same_grant a.1 b.1) db.role_permissions
    && all (λ r. has_row r.1.role_id db.roles && has_row r.1.permission_id db.permissions)
        db.role_permissions

-- The session's flush, over these tables.
unfoldable pub flush_access : AccessDb → Result AccessDb
unfolding access_ok
flush_access db = if access_ok db then ok db else err integrity_error
