-- ===== src/Access/Membership.antt =====
-- What assigning and removing a role does to the list of a user's roles.
use timber_ops.Prelude.{
  ℕ, ◌≡◌, refl, ap, ◌∙◌, String, Bool, true, false, ◌&&◌, ◌==◌, nat_eq, nat_beq_iff, Bool-cases,
  inl, inr, some, List, [], ◌∷◌, any, where_, Table, lookup, delete, distinct, has_unique_keys,
  first_where, first_where_holds, lookup-first_where, count_where, leb, string_eq, arith,
}
use timber_ops.Store.Uniqueness.{any-lookup, any-append}
use timber_ops.Prelude.Sorting.{order_by, any-order_by}
use timber_ops.Domain.Errors.{
  ok, not_found, business_rule, or_raise, or_raise-eq-ok, >>=-eq-ok, raise_if-eq-ok,
}
use timber_ops.Store.Rows.{Uuid}
use timber_ops.Store.Db.{Env}
use timber_ops.Access.Rows.{Role, UserRole, AccessDb, access_ok, same_assignment}
use timber_ops.Access.Lists.{is_role_of, list_user_roles}
use timber_ops.Access.Permits.{any-where}
use timber_ops.Access.Roles.{
  is_assignment, has_role, assigned, unassigned, assign_role, remove_role,
}
use timber_ops.Access.Admins.{flush_access-eq-ok, as_conflict-eq-ok}

module _ (user_id role_id : ℕ) where
  abbrev mine : ℕ × UserRole → Bool
  mine a = is_assignment user_id role_id a.1

  -- no later row is the same assignment
  alone :
      (x : ℕ × UserRole) (t : Table UserRole)
      → mine x ≡ true
      → any (λ b. same_assignment x.1 b.1) t ≡ false
      → any mine t ≡ false
  alone x [] h d = refl
  alone x (y ∷ t) h d = ground (arith, alone x t)

  pub delete_gone :
      (i : ℕ) (a : UserRole) (t : Table UserRole)
      → distinct (λ a b. same_assignment a.1 b.1) t ≡ true
      → has_unique_keys t ≡ true
      → lookup i t ≡ some a
      → is_assignment user_id role_id a ≡ true
      → any mine (delete i t) ≡ false
  delete_gone i a [] d u l h = refl
  delete_gone i a (x ∷ t) d u l h = elim (Bool-cases (x.0 == i)) [
    | inl e ↦
        let only : any (λ b. same_assignment x.1 b.1) t ≡ false = ground arith in
        let here : x.1 ≡ a = ground arith in
        let own : mine x ≡ true = ap (is_assignment user_id role_id) here ∙ h in
        ground (arith, e, alone x t own only)
    | inr ne ↦
        let there : lookup i t ≡ some a = ground arith in
        let only : any (λ b. same_assignment x.1 b.1) t ≡ false = ground arith in
        let found = any-lookup (is_assignment user_id role_id) i a t there h in
        let other : mine x ≡ false = elim (Bool-cases (mine x)) [
          | inl own ↦ absurd (ground (arith, found, alone x t own only))
          | inr not_own ↦ not_own
        ] in
        ground (arith, ne, other, delete_gone i a t)
  ]

unique_roles_of :
    (db : AccessDb)
    → access_ok db ≡ true
    → (distinct (λ a b. same_assignment a.1 b.1) db.user_roles ≡ true)
      × (has_unique_keys db.user_roles ≡ true)
unfolding access_ok
unique_roles_of db h = (ground arith, ground arith)

-- The row with a key, among those that pass a test of their keys.
module _ (p : Uuid → Bool) (k : Uuid) where
  chosen :
      (t : Table Role) (role : Role)
      → lookup k t ≡ some role
      → p k ≡ true
      → any (λ r. p r.0 && r.0 == k) t ≡ true
  chosen [] role l h = absurd cc
  chosen (x ∷ t) role l h = elim (Bool-cases (x.0 == k)) [
    | inl e ↦
        let head_ : p x.0 ≡ true = ap p ((nat_beq_iff x.0 k).0 e) ∙ h in ground (arith, e, head_)
    | inr ne ↦ ground (arith, ne, chosen t role)
  ]

  not_chosen : (t : Table Role) → p k ≡ false → any (λ r. p r.0 && r.0 == k) t ≡ false
  not_chosen [] h = refl
  not_chosen (x ∷ t) h = elim (Bool-cases (x.0 == k)) [
    | inl e ↦
        let head_ : p x.0 ≡ false = ap p ((nat_beq_iff x.0 k).0 e) ∙ h in
        ground (arith, e, head_, not_chosen t h)
    | inr ne ↦ ground (arith, ne, not_chosen t h)
  ]

assign_role-ok :
    (env : Env) (user_id role_id : Uuid) (db db' : AccessDb)
    → assign_role env user_id role_id db ≡ ok db'
    → access_ok db' ≡ true
unfolding assign_role
assign_role-ok env user_id role_id db db' h =
    let (_, _, h1) = >>=-eq-ok (or_raise (lookup user_id db.users) not_found) _ _ h in
    let (_, _, h2) = >>=-eq-ok (or_raise (lookup role_id db.roles) not_found) _ _ h1 in
    (as_conflict-eq-ok (assigned env 0 user_id role_id db) db' h2).1

module _ (text_le : String → String → Bool) (user_id role_id : Uuid) (db db' : AccessDb)
    (rs : List (Uuid × Role)) where
  listed :
      list_user_roles text_le user_id db' ≡ ok rs
      → any (λ r. r.0 == role_id) rs
        ≡ any (λ r. is_role_of user_id db' r.0 && r.0 == role_id) db'.roles
  unfolding list_user_roles
  listed h =
      let le = λ (a b : Uuid × Role). text_le a.1.name b.1.name in
      let own = where_ (λ r. is_role_of user_id db' r.0) db'.roles in
      let (_, _, h1) = >>=-eq-ok (or_raise (lookup user_id db'.users) not_found) _ _ h in
      let same : rs ≡ order_by le own = ground arith in
      ap (any (λ r. r.0 == role_id)) same
      ∙ any-order_by le (λ r. r.0 == role_id) own
      ∙ any-where (λ r. is_role_of user_id db' r.0) (λ r. r.0 == role_id) db'.roles

  assign_role-listed :
      (env : Env)
      → assign_role env user_id role_id db ≡ ok db'
      → list_user_roles text_le user_id db' ≡ ok rs
      → any (λ r. r.0 == role_id) rs ≡ true
  unfolding assign_role
  assign_role-listed env h l =
      let (_, _, h1) = >>=-eq-ok (or_raise (lookup user_id db.users) not_found) _ _ h in
      let (role, le, h2) = >>=-eq-ok (or_raise (lookup role_id db.roles) not_found) _ _ h1 in
      let (written, _) = as_conflict-eq-ok (assigned env 0 user_id role_id db) db' h2 in
      let stands : lookup role_id db'.roles ≡ some role =
        ap (λ d. lookup role_id d.roles) written ∙ or_raise-eq-ok _ not_found role le in
      let me = (nat_beq_iff user_id user_id).1 refl in
      let it = (nat_beq_iff role_id role_id).1 refl in
      let has : is_role_of user_id db' role_id ≡ true = rw written (
        ground (
          arith,
          any-append (mine user_id role_id) db.user_roles
              (env.uuid 0, record { user_id = user_id; role_id = role_id }),
        )) in
      listed l ∙ chosen (is_role_of user_id db') role_id db'.roles role stands has

  remove_role-listed :
      access_ok db ≡ true
      → remove_role user_id role_id db ≡ ok db'
      → list_user_roles text_le user_id db' ≡ ok rs
      → any (λ r. r.0 == role_id) rs ≡ false
  unfolding remove_role
  remove_role-listed good h l =
      let ((i, a), re, h1) =
        >>=-eq-ok (or_raise (first_where (is_assignment user_id role_id) db.user_roles) not_found) _
          _ h in
      let (role, le, h2) = >>=-eq-ok (or_raise (lookup role_id db.roles) not_found) _ _ h1 in
      let (_, h3) =
        raise_if-eq-ok
          ((role.name == "ADMIN") && leb (count_where (has_role role_id) db.user_roles) 1)
          business_rule _ _ h2 in
      let (written, _) = flush_access-eq-ok (unassigned i db) db' h3 in
      let first_ = or_raise-eq-ok _ not_found (i, a) re in
      let (apart, keys) = unique_roles_of db good in
      let here = lookup-first_where (is_assignment user_id role_id) i a db.user_roles keys first_ in
      let holds = first_where_holds (is_assignment user_id role_id) (i, a) db.user_roles first_ in
      let lost : is_role_of user_id db' role_id ≡ false =
        rw written (delete_gone user_id role_id i a db.user_roles apart keys here holds) in
      listed l ∙ not_chosen (is_role_of user_id db') role_id db'.roles lost

-- When a role is assigned to a user and then removed from that user, the user's list of roles holds
-- the role after the assignment, and not after the removal.
pub assign_role-remove_role :
    (text_le : String → String → Bool) (env : Env) (user_id role_id : Uuid) (db db1 db2 : AccessDb)
    (rs1 rs2 : List (Uuid × Role))
    → assign_role env user_id role_id db ≡ ok db1
    → remove_role user_id role_id db1 ≡ ok db2
    → list_user_roles text_le user_id db1 ≡ ok rs1
    → list_user_roles text_le user_id db2 ≡ ok rs2
    → (any (λ r. r.0 == role_id) rs1 ≡ true) × (any (λ r. r.0 == role_id) rs2 ≡ false)
assign_role-remove_role text_le env user_id role_id db db1 db2 rs1 rs2 give take l1 l2 = (
  assign_role-listed text_le user_id role_id db db1 rs1 env give l1,
  remove_role-listed text_le user_id role_id db1 db2 rs2
      (assign_role-ok env user_id role_id db db1 give) take l2,
)
