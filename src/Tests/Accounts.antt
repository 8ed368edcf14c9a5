-- ===== src/Tests/Accounts.antt =====
-- The theorems on users and roles, applied to the seeded roles and permissions.
use timber_ops.Prelude.{
  any, ◌==◌, nat_eq, ℕ, suc, ◌≡◌, refl, String, Bool, true, false, string_eq, none, List, [], ◌∷◌,
  all, Table, arith,
}
use timber_ops.Prelude.Sorting.{order_by}
use timber_ops.Domain.Errors.{ok, err, authentication, admin_already_exists}
use timber_ops.Store.Rows.{Uuid, User}
use timber_ops.Store.Db.{Env}
use timber_ops.Access.Catalog.{permission_definitions}
use timber_ops.Access.Rows.{Role, Permission, RolePermission, AccessDb, access_ok}
use timber_ops.Access.Lists.{list_user_roles, list_user_permissions}
use timber_ops.Access.Membership.{assign_role-remove_role}
use timber_ops.Access.Permits.{list_user_permissions-require_permission}
use timber_ops.Access.Roles.{assign_role, remove_role, require_permission, has_permission, assigned}
use timber_ops.Access.Users.{UserRegister, new_user, user_added, register, authenticate}
use timber_ops.Access.Bootstrap.{bootstrap}
use timber_ops.Access.Admins.{IsGuarded, AccessRequest, access_run, access_run-IsGuarded}
use timber_ops.Access.Login.{register-authenticate}
use timber_ops.Access.FirstAdmin.{bootstrap_once}
use timber_ops.Tests.Fixtures.{env_at}

-- A hash that shows the password.
abbrev plain : String → String
plain p = p

abbrev verify : String → String → Bool
verify p h = h == p

abbrev role : String → Role
role name = record { name = name; description = none; created_at = 1; updated_at = 1 }

abbrev permissions_from : ℕ → List String → Table Permission
permissions_from n [] = []
permissions_from n (c ∷ cs) =
    (n, record { code = c; name = c; description = none; created_at = 1 })
    ∷ permissions_from (suc n) cs

abbrev grants_from : ℕ → List String → Table RolePermission
grants_from n [] = []
grants_from n (c ∷ cs) = (n, record { role_id = 1; permission_id = n }) ∷ grants_from (suc n) cs

abbrev seeded : AccessDb
seeded = record {
  users = [];
  roles = (1, role "ADMIN") ∷ (2, role "OPERATOR") ∷ (3, role "VIEWER") ∷ [];
  permissions = permissions_from 1 permission_definitions;
  user_roles = [];
  role_permissions = grants_from 1 permission_definitions;
}

abbrev ann : UserRegister
ann = record { username = "ann"; password = "timber-yard"; real_name = "Ann" }

abbrev bob : UserRegister
bob = record { username = "bob"; password = "weighbridge"; real_name = "Bob" }

abbrev ann_row : Uuid × User
ann_row = (20, new_user plain verify (env_at 2) ann)

abbrev pub with_ann : AccessDb
with_ann = user_added plain verify (env_at 2) ann seeded

abbrev pub ann_admin : AccessDb
ann_admin = assigned (env_at 2) 1 20 1 with_ann

seeded_ok : access_ok seeded ≡ true
unfolding access_ok
seeded_ok = refl

admin_ok : access_ok ann_admin ≡ true
unfolding access_ok
admin_ok = refl

bootstrap_returns : bootstrap plain verify (env_at 2) ann seeded ≡ ok (ann_row, ann_admin)
unfolding bootstrap
bootstrap_returns = refl

bootstrap_once_example :
    (all (λ code. has_permission 20 code ann_admin) permission_definitions ≡ true)
    × (bootstrap plain verify (env_at 3) bob ann_admin ≡ err admin_already_exists)
bootstrap_once_example =
    bootstrap_once plain verify (env_at 2) (env_at 3) ann bob seeded ann_admin ann_row seeded_ok
      bootstrap_returns

register_returns : register plain verify (env_at 2) ann seeded ≡ ok (ann_row, with_ann)
unfolding register
register_returns = refl

register-authenticate_example :
    (authenticate plain verify "ann" "timber-yard" with_ann ≡ ok ann_row)
    × ((other : String)
        → verify other "timber-yard" ≡ false
        → authenticate plain verify "ann" other with_ann ≡ err authentication)
register-authenticate_example =
    register-authenticate plain verify (λ p. (string_eq.same_iff p p).1 refl) (env_at 2) ann seeded
      with_ann ann_row register_returns

-- Bob is registered and made an administrator, then both lose the role, or try to.
abbrev changes : List (Env × AccessRequest plain verify)
changes =
    (env_at 4, AccessRequest.sign_up bob)
    ∷ (env_at 5, AccessRequest.give 40 1)
    ∷ (env_at 6, AccessRequest.take 20 1)
    ∷ (env_at 7, AccessRequest.take 40 1)
    ∷ []

access_run-IsGuarded_example : IsGuarded 1 (access_run plain verify changes ann_admin)
access_run-IsGuarded_example =
    access_run-IsGuarded plain verify 1 changes ann_admin
      (admin_ok, record { role = role "ADMIN"; stands = refl; named = refl; someone = omega arith })

-- A collation that tells nothing apart: the rows stay in their order.
abbrev any_order : String → String → Bool
any_order a b = true

ann_permissions :
    list_user_permissions any_order 20 ann_admin ≡ ok (permissions_from 1 permission_definitions)
unfolding list_user_permissions order_by
ann_permissions = refl

list_user_permissions-require_permission_example :
    require_permission "weighing:reverse" 20 ann_admin ≡ ok 20
list_user_permissions-require_permission_example =
    list_user_permissions-require_permission any_order 20 ann_admin
      (permissions_from 1 permission_definitions) "weighing:reverse" admin_ok ann_permissions

-- Ann is an operator too, for a while.
abbrev ann_operator : AccessDb
ann_operator = assigned (env_at 5) 0 20 2 ann_admin

give_returns : assign_role (env_at 5) 20 2 ann_admin ≡ ok ann_operator
unfolding assign_role
give_returns = refl

take_returns : remove_role 20 2 ann_operator ≡ ok ann_admin
unfolding remove_role
take_returns = refl

roles_with :
    list_user_roles any_order 20 ann_operator ≡ ok ((1, role "ADMIN") ∷ (2, role "OPERATOR") ∷ [])
unfolding list_user_roles order_by
roles_with = refl

roles_without : list_user_roles any_order 20 ann_admin ≡ ok ((1, role "ADMIN") ∷ [])
unfolding list_user_roles order_by
roles_without = refl

assign_role-remove_role_example :
    (any (λ (r : Uuid × Role). r.0 == 2) ((1, role "ADMIN") ∷ (2, role "OPERATOR") ∷ []) ≡ true)
    × (any (λ (r : Uuid × Role). r.0 == 2) ((1, role "ADMIN") ∷ []) ≡ false)
assign_role-remove_role_example =
    assign_role-remove_role any_order (env_at 5) 20 2 ann_admin ann_operator ann_admin
      ((1, role "ADMIN") ∷ (2, role "OPERATOR") ∷ []) ((1, role "ADMIN") ∷ []) give_returns
      take_returns roles_with roles_without
