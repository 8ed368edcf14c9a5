-- ===== src/Access/Bootstrap.antt =====
-- backend/app/services/bootstrap_admin_service.py.
use timber_ops.Prelude.{
  String, Bool, false, not, ◌&&◌, Option, some, none, ◌==◌, nat_eq, string_eq, all, any, lookup,
  first_where,
}
use timber_ops.Domain.Errors.{
  Result, ok, err, integrity_error, bootstrap_admin, admin_already_exists, existing_user_password,
  rbac_data_incomplete, ◌>>=◌, ◌>>◌, raise_if, or_raise,
}
use timber_ops.Store.Rows.{Uuid, User}
use timber_ops.Store.Db.{Env}
use timber_ops.Access.Catalog.{role_definitions, permission_definitions}
use timber_ops.Access.Rows.{Role, AccessDb, flush_access}
use timber_ops.Access.Roles.{grants, add_role}
use timber_ops.Access.Users.{UserRegister, has_name, new_user, user_added}

abbrev pub is_admin : Role → Bool
is_admin r = r.name == "ADMIN"

-- Is this a row of a role named ADMIN?
abbrev pub is_admin_id : Uuid → AccessDb → Bool
is_admin_id role_id db = elim (lookup role_id db.roles) [ none ↦ false | some r ↦ is_admin r ]

-- `_admin_exists`
unfoldable pub admin_exists : AccessDb → Bool
admin_exists db = any (λ a. is_admin_id a.1.role_id db) db.user_roles

-- Is the code granted to the ADMIN role?
abbrev pub admin_grants : AccessDb → String → Bool
admin_grants db code =
    any (λ g. is_admin_id g.1.role_id db && grants code db g.1) db.role_permissions

-- The three sets that `_require_rbac_data` compares.
unfoldable pub is_complete : AccessDb → Bool
is_complete db =
    all (λ name. any (λ r. r.1.name == name) db.roles) role_definitions
    && all (λ code. any (λ p. p.1.code == code) db.permissions) permission_definitions
    && all (admin_grants db) permission_definitions

-- `_lock_and_validate_admin_role`
unfoldable pub lock_and_validate_admin_role : AccessDb → Result (Uuid × Role)
unfolding is_complete
lock_and_validate_admin_role db = do
  role ← or_raise (first_where is_admin db.roles) rbac_data_incomplete
  raise_if (not (is_complete db)) rbac_data_incomplete
  ok role

unfoldable pub assert_bootstrap_available : AccessDb → Result (Unit {0})
unfolding is_complete admin_exists
assert_bootstrap_available db = do
  raise_if (not (is_complete db)) rbac_data_incomplete
  raise_if (admin_exists db) admin_already_exists
  ok tt

-- `except IntegrityError`
abbrev pub as_bootstrap {ℓ} : {A : Type ℓ} → Result A → Result A
as_bootstrap (ok a) = ok a
as_bootstrap (err integrity_error) = err bootstrap_admin
as_bootstrap (err e) = err e

module _ (hash_password : String → String) (verify_password : String → String → Bool) where
  -- The user to promote: an old one who knows the password, or a new one.
  abbrev pub user_for :
      Env → UserRegister → AccessDb → Option (Uuid × User) → Result ((Uuid × User) × AccessDb)
  user_for env input db (some user) = do
    raise_if (not user.1.is_active) bootstrap_admin
    raise_if (not (verify_password input.password user.1.password_hash)) existing_user_password
    ok (user, db)
  user_for env input db none = do
    db' ← flush_access (user_added hash_password verify_password env input db)
    ok ((env.uuid 0, new_user hash_password verify_password env input), db')

  abbrev pub bootstrapped : Env → UserRegister → AccessDb → Result ((Uuid × User) × AccessDb)
  bootstrapped env input db = do
    role ← lock_and_validate_admin_role db
    raise_if (admin_exists db) admin_already_exists
    user ← user_for env input db (first_where (has_name input.username) db.users)
    db' ← add_role env 1 user.0.0 role.0 user.1
    ok (user.0, db')

  unfoldable pub bootstrap : Env → UserRegister → AccessDb → Result ((Uuid × User) × AccessDb)
  unfolding lock_and_validate_admin_role admin_exists add_role flush_access
  bootstrap env input db = as_bootstrap (bootstrapped env input db)
