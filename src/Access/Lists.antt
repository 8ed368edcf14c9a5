-- ===== src/Access/Lists.antt =====
-- The lists of backend/app/services/rbac_service.py, and `list_users` of user_service.py.
use timber_ops.Prelude.{String, Bool, ◌&&◌, ◌||◌, List, ◌==◌, nat_eq, ltb, leb, any, where_, lookup}
use timber_ops.Prelude.Sorting.{order_by}
use timber_ops.Domain.Errors.{Result, ok, not_found, ◌>>=◌, or_raise}
use timber_ops.Store.Rows.{Uuid, User}
use timber_ops.Access.Rows.{Role, Permission, AccessDb}

-- Does an assignment of the user lead to this role?
abbrev pub is_role_of : Uuid → AccessDb → Uuid → Bool
is_role_of user_id db role_id =
    any (λ a. a.1.user_id == user_id && a.1.role_id == role_id) db.user_roles

-- Does an assignment of the user, with a grant of its role, lead to this permission?
abbrev pub is_permission_of : Uuid → AccessDb → Uuid → Bool
is_permission_of user_id db permission_id =
    any
      (λ a.
        a.1.user_id == user_id
        && any (λ g. g.1.role_id == a.1.role_id && permission_id == g.1.permission_id)
            db.role_permissions)
      db.user_roles

abbrev user_le : Uuid × User → Uuid × User → Bool
user_le (i, a) (j, b) = ltb a.created_at b.created_at || (a.created_at == b.created_at && leb i j)

unfoldable pub list_users : AccessDb → List (Uuid × User)
list_users db = order_by user_le db.users

-- How the database compares texts is its collation, which is a parameter.
module _ (text_le : String → String → Bool) where
  unfoldable pub list_roles : AccessDb → List (Uuid × Role)
  list_roles db = order_by (λ a b. text_le a.1.name b.1.name) db.roles

  unfoldable pub list_user_roles : Uuid → AccessDb → Result (List (Uuid × Role))
  list_user_roles user_id db = do
    user ← or_raise (lookup user_id db.users) not_found
    ok (
        order_by (λ a b. text_le a.1.name b.1.name)
          (where_ (λ r. is_role_of user_id db r.0) db.roles))

  unfoldable pub list_user_permissions : Uuid → AccessDb → Result (List (Uuid × Permission))
  list_user_permissions user_id db = do
    user ← or_raise (lookup user_id db.users) not_found
    ok (
        order_by (λ a b. text_le a.1.code b.1.code)
          (where_ (λ p. is_permission_of user_id db p.0) db.permissions))
