-- ===== src/Access/FirstAdmin.antt =====
-- The bootstrap of the first administrator.
use timber_ops.Prelude.{
  ◌≡◌, refl, inl, inr, sym, subst, ap, ◌∙◌, String, Bool, true, not, ◌&&◌, ◌==◌, nat_eq,
  nat_beq_iff, string_eq, Option, some, none, List, [], ◌∷◌, all, any, distinct, lookup,
  has_unique_keys, first_where, first_where_holds, lookup-first_where, Option-cases, arith,
}
use timber_ops.Domain.Errors.{
  Result, ok, err, bootstrap_admin, admin_already_exists, existing_user_password,
  rbac_data_incomplete, not_found, or_raise, or_raise-eq-ok, >>=-eq-ok, raise_if-eq-ok,
}
use timber_ops.Store.Rows.{Uuid, User}
use timber_ops.Store.Db.{Env}
use timber_ops.Store.Uniqueness.{any-append, distinct-lookup}
use timber_ops.Access.Catalog.{permission_definitions}
use timber_ops.Access.Rows.{Role, AccessDb, access_ok, flush_access}
use timber_ops.Access.Roles.{grants, role_grants, has_permission, assigned, add_role}
use timber_ops.Access.Users.{UserRegister, has_name, user_added}
use timber_ops.Access.Admins.{flush_access-eq-ok}
use timber_ops.Access.Bootstrap.{
  is_admin, is_admin_id, admin_exists, admin_grants, is_complete, lock_and_validate_admin_role,
  as_bootstrap, user_for, bootstrapped, bootstrap,
}

any-implies :
    {A : Type 0} (p q : A → Bool) (xs : List A)
    → ((x : A) → p x ≡ true → q x ≡ true)
    → any p xs ≡ true
    → any q xs ≡ true
any-implies p q [] f h = h
any-implies p q (x ∷ xs) f h = ground (arith, f x, any-implies p q xs f)

all-implies :
    {A : Type 0} (p q : A → Bool) (xs : List A)
    → ((x : A) → p x ≡ true → q x ≡ true)
    → all p xs ≡ true
    → all q xs ≡ true
all-implies p q [] f h = refl
all-implies p q (x ∷ xs) f h = ground (arith, f x, all-implies p q xs f)

unique_roles :
    (db : AccessDb)
    → access_ok db ≡ true
    → (has_unique_keys db.roles ≡ true) × (distinct (λ a b. a.1.name == b.1.name) db.roles ≡ true)
unfolding access_ok
unique_roles db h = (ground arith, ground arith)

module _ (db : AccessDb) (rid : Uuid) (role : Role) (good : access_ok db ≡ true)
    (found : first_where is_admin db.roles ≡ some (rid, role)) where
  stands : lookup rid db.roles ≡ some role
  stands = lookup-first_where is_admin rid role db.roles ((unique_roles db good).0) found

  -- the one role that is named ADMIN
  only_admin : (id : Uuid) → is_admin_id id db ≡ true → id ≡ rid
  only_admin id h = elim (Option-cases (lookup id db.roles)) [
    | inl missing ↦ absurd (ground arith)
    | inr (r, e) ↦
        let named : (r.name == "ADMIN") ≡ true = rw (e, is_admin_id) at h in
        let admin = first_where_holds is_admin (rid, role) db.roles found in
        let alike : (r.name == role.name) ≡ true = (string_eq.same_iff r.name role.name).1 (
          (string_eq.same_iff r.name "ADMIN").0 named
          ∙ sym ((string_eq.same_iff role.name "ADMIN").0 admin)) in
        distinct-lookup (λ a b. a.name == b.name)
          (λ a b l.
            (string_eq.same_iff b.name a.name).1 (sym ((string_eq.same_iff a.name b.name).0 l)))
          id rid r role db.roles ((unique_roles db good).1) e stands alike
  ]

  -- so what is granted to ADMIN is granted by that role
  granted : (code : String) → admin_grants db code ≡ true → role_grants rid code db ≡ true
  granted code h =
      any-implies (λ g. is_admin_id g.1.role_id db && grants code db g.1)
        (λ g. g.1.role_id == rid && grants code db g.1) db.role_permissions
        (λ g e.
          let key = only_admin g.1.role_id (ground arith) in
          let here = (nat_beq_iff g.1.role_id rid).1 key in ground arith)
        h

  -- the permissions and the standing of a user who gets the role
  module _ (env : Env) (u : Uuid) where
    all_permissions :
        is_complete db ≡ true
        → all (λ code. has_permission u code (assigned env 1 u rid db)) permission_definitions
          ≡ true
    unfolding is_complete has_permission
    all_permissions c =
        all-implies (admin_grants db) (λ code. has_permission u code (assigned env 1 u rid db))
          permission_definitions
          (λ code g.
            let own = granted code g in
            let me = (nat_beq_iff u u).1 refl in
            ground (
              arith,
              any-append (λ a. a.1.user_id == u && role_grants a.1.role_id code db) db.user_roles
                  (env.uuid 1, record { user_id = u; role_id = rid }),
            ))
          (ground arith)

    is_standing : admin_exists (assigned env 1 u rid db) ≡ true
    unfolding admin_exists
    is_standing =
        let admin = first_where_holds is_admin (rid, role) db.roles found in
        let here : is_admin_id rid db ≡ true = rw (stands, is_admin_id) admin in
        ground (
          arith,
          any-append (λ a. is_admin_id a.1.role_id db) db.user_roles
              (env.uuid 1, record { user_id = u; role_id = rid }),
        )

-- What an account has that was made the first administrator.
pub record IsFirstAdmin (u : Uuid) (db : AccessDb) : Type 0 where
  pub permitted : all (λ code. has_permission u code db) permission_definitions ≡ true
  pub complete : is_complete db ≡ true
  pub standing : admin_exists db ≡ true
  pub role : Uuid × Role
  pub found : first_where is_admin db.roles ≡ some role

module _ (hash_password : String → String) (verify_password : String → String → Bool) where
  -- whether the account is an old one or a new one
  promoted :
      (env : Env) (input : UserRegister) (db db1 : AccessDb) (rid : Uuid) (role : Role)
      (user : Uuid × User) (o : Option (Uuid × User))
      → access_ok db ≡ true
      → first_where is_admin db.roles ≡ some (rid, role)
      → is_complete db ≡ true
      → user_for hash_password verify_password env input db o ≡ ok (user, db1)
      → IsFirstAdmin user.0 (assigned env 1 user.0 rid db1)
  unfolding has_permission is_complete admin_exists
  promoted env input db db1 rid role user none good found full h =
      let (d, de, h1) =
        >>=-eq-ok (flush_access (user_added hash_password verify_password env input db)) _ _ h in
      let (written, _) =
        flush_access-eq-ok (user_added hash_password verify_password env input db) d de in
      let kept : db1 ≡ d = ground arith in
      let same : db1 ≡ user_added hash_password verify_password env input db = kept ∙ written in
      rw same (record {
        permitted = all_permissions db rid role good found env user.0 full;
        complete = full;
        standing = is_standing db rid role good found env user.0;
        role = (rid, role);
        found = found;
      })
  promoted env input db db1 rid role user (some old) good found full h =
      let (_, h1) = raise_if-eq-ok (not old.1.is_active) bootstrap_admin _ _ h in
      let (_, h2) =
        raise_if-eq-ok (not (verify_password input.password old.1.password_hash))
          existing_user_password _ _ h1 in
      let same : db1 ≡ db = ground arith in
      rw same (record {
        permitted = all_permissions db rid role good found env user.0 full;
        complete = full;
        standing = is_standing db rid role good found env user.0;
        role = (rid, role);
        found = found;
      })

  refused :
      (env : Env) (input : UserRegister) (u : Uuid) (db : AccessDb)
      → IsFirstAdmin u db
      → bootstrap hash_password verify_password env input db ≡ err admin_already_exists
  unfolding bootstrap
  refused env input u db f = ground (arith, f.complete, f.standing, f.found)

  returned :
      (m : Result ((Uuid × User) × AccessDb)) (r : (Uuid × User) × AccessDb)
      → as_bootstrap m ≡ ok r
      → m ≡ ok r
  returned m r h = ground arith

  lock-eq-ok :
      (db : AccessDb) (r : Uuid × Role)
      → lock_and_validate_admin_role db ≡ ok r
      → (first_where is_admin db.roles ≡ some r) × (is_complete db ≡ true)
  unfolding lock_and_validate_admin_role
  lock-eq-ok db r h =
      let (role, le, h1) =
        >>=-eq-ok (or_raise (first_where is_admin db.roles) rbac_data_incomplete) _ _ h in
      let (full, h2) = raise_if-eq-ok (not (is_complete db)) rbac_data_incomplete _ _ h1 in
      let same : role ≡ r = ground arith in
      (or_raise-eq-ok _ rbac_data_incomplete role le ∙ ap some same, ground arith)

  add_role-eq-ok :
      (env : Env) (u rid : Uuid) (db db' : AccessDb)
      → add_role env 1 u rid db ≡ ok db'
      → db' ≡ assigned env 1 u rid db
  unfolding add_role
  add_role-eq-ok env u rid db db' h =
      let (_, _, h1) = >>=-eq-ok (or_raise (lookup u db.users) not_found) _ _ h in
      let (_, _, h2) = >>=-eq-ok (or_raise (lookup rid db.roles) not_found) _ _ h1 in
      (flush_access-eq-ok (assigned env 1 u rid db) db' h2).0

  bootstrap-IsFirstAdmin :
      (env : Env) (input : UserRegister) (db db' : AccessDb) (user : Uuid × User)
      → access_ok db ≡ true
      → bootstrap hash_password verify_password env input db ≡ ok (user, db')
      → IsFirstAdmin user.0 db'
  unfolding bootstrap
  bootstrap-IsFirstAdmin env input db db' user good h =
      let h0 = returned (bootstrapped hash_password verify_password env input db) (user, db') h in
      let ((rid, role), re, h1) = >>=-eq-ok (lock_and_validate_admin_role db) _ _ h0 in
      let (found, full) = lock-eq-ok db (rid, role) re in
      let (_, h2) = raise_if-eq-ok (admin_exists db) admin_already_exists _ _ h1 in
      let chosen = first_where (has_name input.username) db.users in
      let ((u, d), ue, h3) =
        >>=-eq-ok (user_for hash_password verify_password env input db chosen) _ _ h2 in
      let (d', ae, h4) = >>=-eq-ok (add_role env 1 u.0 rid d) _ _ h3 in
      let written = add_role-eq-ok env u.0 rid d d' ae in
      let first_ = promoted env input db d rid role u chosen good found full ue in
      let who : u ≡ user = ground arith in
      let kept : d' ≡ db' = ground arith in
      subst (λ x. IsFirstAdmin x.0 db') who
        (subst (IsFirstAdmin u.0) kept (subst (IsFirstAdmin u.0) (sym written) first_))

  -- Once `bootstrap` has returned a user, over a database whose constraints hold, that user has
  -- every permission of the catalogue, and a second bootstrap, of whatever user, is refused because
  -- there is an administrator.
  pub bootstrap_once :
      (env env' : Env) (input input' : UserRegister) (db db' : AccessDb) (user : Uuid × User)
      → access_ok db ≡ true
      → bootstrap hash_password verify_password env input db ≡ ok (user, db')
      → (all (λ code. has_permission user.0 code db') permission_definitions ≡ true)
        × (bootstrap hash_password verify_password env' input' db' ≡ err admin_already_exists)
  bootstrap_once env env' input input' db db' user good h =
      let f = bootstrap-IsFirstAdmin env input db db' user good h in
      (f.permitted, refused env' input' user.0 db' f)
