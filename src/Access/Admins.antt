-- ===== src/Access/Admins.antt =====
-- Whatever is registered, assigned and removed, an administrator remains.
use timber_ops.Prelude.{
  ◌≤◌, ◌≡◌, refl, sym, subst, ap, ◌∙◌, inl, inr, String, Bool, true, false, not, ◌&&◌, ◌==◌, nat_eq,
  nat_beq_iff, string_eq, leb, is_none, Bool-cases, some, List, [], ◌∷◌, lookup, delete,
  count_where, count_where-insert, count_where-delete, lookup-first_where, first_where,
  first_where_holds, has_unique_keys, arith,
}
use timber_ops.Domain.Errors.{
  Result, ok, err, not_found, conflict, business_rule, >>=-eq-ok, raise_if-eq-ok, or_raise,
  or_raise-eq-ok,
}
use timber_ops.Store.Rows.{Uuid, User}
use timber_ops.Store.Db.{Env}
use timber_ops.Store.Session.{as_conflict}
use timber_ops.Access.Rows.{Role, UserRole, AccessDb, access_ok, flush_access}
use timber_ops.Access.Roles.{
  assigned, assign_role, is_assignment, has_role, unassigned, remove_role,
}
use timber_ops.Access.Users.{UserRegister, has_name, user_added, register}

-- The role `k` is named ADMIN, and someone has it.
pub record HasAdmin (k : Uuid) (db : AccessDb) : Type 0 where
  pub role : Role
  pub stands : lookup k db.roles ≡ some role
  pub named : role.name ≡ "ADMIN"
  pub someone : 1 ≤ count_where (has_role k) db.user_roles

-- That, and the constraints hold.
abbrev pub IsGuarded : Uuid → AccessDb → Type 0
IsGuarded k db = (access_ok db ≡ true) × HasAdmin k db

pub flush_access-eq-ok :
    (db db' : AccessDb) → flush_access db ≡ ok db' → (db' ≡ db) × (access_ok db' ≡ true)
unfolding flush_access
flush_access-eq-ok db db' h = ground arith

pub as_conflict-eq-ok :
    (db db' : AccessDb)
    → as_conflict (flush_access db) ≡ ok db'
    → (db' ≡ db) × (access_ok db' ≡ true)
unfolding flush_access
as_conflict-eq-ok db db' h = ground arith

unique_assignments : (db : AccessDb) → access_ok db ≡ true → has_unique_keys db.user_roles ≡ true
unfolding access_ok
unique_assignments db h = ground arith

module _ (k : Uuid) (db db' : AccessDb) where
  assign_role-IsGuarded :
      (env : Env) (user_id role_id : Uuid)
      → assign_role env user_id role_id db ≡ ok db'
      → IsGuarded k db
      → IsGuarded k db'
  unfolding assign_role
  assign_role-IsGuarded env user_id role_id h (_, a) =
      let (_, _, h1) = >>=-eq-ok (or_raise (lookup user_id db.users) not_found) _ _ h in
      let (_, _, h2) = >>=-eq-ok (or_raise (lookup role_id db.roles) not_found) _ _ h1 in
      let (written, good) = as_conflict-eq-ok (assigned env 0 user_id role_id db) db' h2 in
      let grown =
        count_where-insert (has_role k) (env.uuid 0)
          (record { user_id = user_id; role_id = role_id }) db.user_roles in
      (
        good,
        record {
          role = a.role;
          stands = ap (λ d. lookup k d.roles) written ∙ a.stands;
          named = a.named;
          someone = rw written (omega (arith, grown, a.someone));
        },
      )

  -- the count that is left when one assignment is deleted
  left_over :
      (role_id : Uuid) (role : Role) (i : Uuid) (r : UserRole)
      → HasAdmin k db
      → lookup role_id db.roles ≡ some role
      → lookup i db.user_roles ≡ some r
      → r.role_id ≡ role_id
      → ((role.name == "ADMIN") && leb (count_where (has_role role_id) db.user_roles) 1) ≡ false
      → 1 ≤ count_where (has_role k) (delete i db.user_roles)
  left_over role_id role i r a found here of guard_ =
      let gone = count_where-delete (has_role k) i r db.user_roles here in
      elim (Bool-cases (r.role_id == k)) [
        | inl admin ↦
            let key : role_id ≡ k = sym of ∙ (nat_beq_iff r.role_id k).0 admin in
            let same : role ≡ a.role = cc (found, key, a.stands) in
            let named : (role.name == "ADMIN") ≡ true =
              (string_eq.same_iff role.name "ADMIN").1 (ap (λ x. x.name) same ∙ a.named) in
            let several : leb (count_where (has_role k) db.user_roles) 1 ≡ false = rw named at (
              subst
                (λ j.
                  ((role.name == "ADMIN") && leb (count_where (has_role j) db.user_roles) 1)
                  ≡ false)
                key guard_) in
            let two : 2 ≤ count_where (has_role k) db.user_roles = ground arith in
            omega (arith, rw admin at gone, two)
        | inr other ↦ omega (arith, rw other at gone, a.someone)
      ]

  remove_role-IsGuarded :
      (user_id role_id : Uuid)
      → remove_role user_id role_id db ≡ ok db'
      → IsGuarded k db
      → IsGuarded k db'
  unfolding remove_role
  remove_role-IsGuarded user_id role_id h (good, a) =
      let ((i, r), re, h1) =
        >>=-eq-ok (or_raise (first_where (is_assignment user_id role_id) db.user_roles) not_found) _
          _ h in
      let (role, le, h2) = >>=-eq-ok (or_raise (lookup role_id db.roles) not_found) _ _ h1 in
      let (guard_, h3) =
        raise_if-eq-ok
          ((role.name == "ADMIN") && leb (count_where (has_role role_id) db.user_roles) 1)
          business_rule _ _ h2 in
      let first_ = or_raise-eq-ok _ not_found (i, r) re in
      let here =
        lookup-first_where (is_assignment user_id role_id) i r db.user_roles
          (unique_assignments db good) first_ in
      let holds = first_where_holds (is_assignment user_id role_id) (i, r) db.user_roles first_ in
      let mine : r.role_id ≡ role_id = (nat_beq_iff r.role_id role_id).0 (ground (arith, holds)) in
      let (written, good') = flush_access-eq-ok (unassigned i db) db' h3 in
      (
        good',
        record {
          role = a.role;
          stands = ap (λ d. lookup k d.roles) written ∙ a.stands;
          named = a.named;
          someone =
              rw written (
                left_over role_id role i r a (or_raise-eq-ok _ not_found role le) here mine guard_);
        },
      )

module _ (hash_password : String → String) (verify_password : String → String → Bool) where
  register-IsGuarded :
      (env : Env) (input : UserRegister) (k : Uuid) (db db' : AccessDb) (r : Uuid × User)
      → register hash_password verify_password env input db ≡ ok (r, db')
      → IsGuarded k db
      → IsGuarded k db'
  unfolding register
  register-IsGuarded env input k db db' r h (_, a) =
      let (_, h1) =
        raise_if-eq-ok (not (is_none (first_where (has_name input.username) db.users))) conflict _ _
          h in
      let (d, de, h2) =
        >>=-eq-ok
          (as_conflict (flush_access (user_added hash_password verify_password env input db))) _ _
          h1 in
      let (written, good) =
        as_conflict-eq-ok (user_added hash_password verify_password env input db) d de in
      let same : db' ≡ d = ground arith in
      let whole : db' ≡ user_added hash_password verify_password env input db = same ∙ written in
      (
        rw same good,
        record {
          role = a.role;
          stands = ap (λ x. lookup k x.roles) whole ∙ a.stands;
          named = a.named;
          someone = rw whole a.someone;
        },
      )

  -- The calls of the services that change these tables, as one data type.
  pub data AccessRequest : Type 0 where
    sign_up : UserRegister → AccessRequest
    give take : Uuid → Uuid → AccessRequest

  abbrev registered : Result ((Uuid × User) × AccessDb) → Result AccessDb
  registered (ok (_, db)) = ok db
  registered (err e) = err e

  unfoldable pub access_execute : Env → AccessRequest → AccessDb → Result AccessDb
  unfolding register assign_role remove_role
  access_execute env (sign_up input) db =
      registered (register hash_password verify_password env input db)
  access_execute env (give user_id role_id) db = assign_role env user_id role_id db
  access_execute env (take user_id role_id) db = remove_role user_id role_id db

  abbrev left : AccessDb → Result AccessDb → AccessDb
  left db (ok db') = db'
  left db (err e) = db

  unfoldable pub access_run : List (Env × AccessRequest) → AccessDb → AccessDb
  unfolding access_execute
  access_run [] db = db
  access_run ((env, r) ∷ rs) db = access_run rs (left db (access_execute env r db))

  registered-eq-ok :
      (m : Result ((Uuid × User) × AccessDb)) (db' : AccessDb)
      → registered m ≡ ok db'
      → (r : Uuid × User) × (m ≡ ok (r, db'))
  registered-eq-ok (ok (r, d)) db' h = (r, ground arith)
  registered-eq-ok (err e) db' h = cc

  execute-IsGuarded :
      (env : Env) (r : AccessRequest) (k : Uuid) (db db' : AccessDb)
      → access_execute env r db ≡ ok db'
      → IsGuarded k db
      → IsGuarded k db'
  unfolding access_execute
  execute-IsGuarded env (sign_up input) k db db' h g =
      let (r, e) = registered-eq-ok (register hash_password verify_password env input db) db' h in
      register-IsGuarded env input k db db' r e g
  execute-IsGuarded env (give user_id role_id) k db db' h g =
      assign_role-IsGuarded k db db' env user_id role_id h g
  execute-IsGuarded env (take user_id role_id) k db db' h g =
      remove_role-IsGuarded k db db' user_id role_id h g

  left-IsGuarded :
      (k : Uuid) (db : AccessDb) (m : Result AccessDb)
      → ((db' : AccessDb) → m ≡ ok db' → IsGuarded k db')
      → IsGuarded k db
      → IsGuarded k (left db m)
  left-IsGuarded k db (ok db') keeps g = keeps db' refl
  left-IsGuarded k db (err e) keeps g = g

  -- If the constraints hold, a role `k` is named ADMIN and some user has it, then after any
  -- registrations, assignments and removals of roles the same is true: the last administrator is
  -- never removed.
  pub access_run-IsGuarded :
      (k : Uuid) (rs : List (Env × AccessRequest)) (db : AccessDb)
      → IsGuarded k db
      → IsGuarded k (access_run rs db)
  unfolding access_run
  access_run-IsGuarded k [] db g = g
  access_run-IsGuarded k ((env, r) ∷ rs) db g =
      access_run-IsGuarded k rs (left db (access_execute env r db)) (
        left-IsGuarded k db (access_execute env r db)
          (λ db' e. execute-IsGuarded env r k db db' e g) g)
