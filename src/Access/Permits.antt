-- ===== src/Access/Permits.antt =====
-- The list of a user's permissions, and what `require_permission` lets through.
use timber_ops.Prelude.{
  ℕ, ◌≡◌, refl, sym, ap, ◌∙◌, String, Bool, true, false, ◌&&◌, ◌||◌, ◌==◌, nat_eq, nat_beq_iff,
  Bool-cases, inl, inr, subst, string_eq, Option, some, none, List, [], ◌∷◌, any, where_, Table,
  lookup, has_unique_keys, arith, if◌then◌else◌,
}
use timber_ops.Prelude.Sorting.{order_by, any-order_by}
use timber_ops.Domain.Errors.{ok, err, not_found, permission_denied, or_raise, >>=-eq-ok}
use timber_ops.Store.Rows.{Uuid}
use timber_ops.Access.Rows.{Permission, RolePermission, AccessDb, access_ok}
use timber_ops.Access.Roles.{grants, role_grants, has_permission, require_permission}
use timber_ops.Access.Lists.{is_permission_of, list_user_permissions}

-- Joins as nested tests.
module _ {A : Type 0} where
  any-cong : (p q : A → Bool) (xs : List A) → ((x : A) → p x ≡ q x) → any p xs ≡ any q xs
  any-cong p q [] f = refl
  any-cong p q (x ∷ xs) f = ground (arith, f x, any-cong p q xs f)

  any-none : (xs : List A) → any (λ _. false) xs ≡ false
  any-none [] = refl
  any-none (x ∷ xs) = ground (arith, any-none xs)

  any-or : (p q : A → Bool) (xs : List A) → any (λ x. p x || q x) xs ≡ (any p xs || any q xs)
  any-or p q [] = refl
  any-or p q (x ∷ xs) = ground (arith, any-or p q xs)

  any-and : (b : Bool) (p : A → Bool) (xs : List A) → any (λ x. b && p x) xs ≡ (b && any p xs)
  any-and b p [] = ground arith
  any-and b p (x ∷ xs) = ground (arith, any-and b p xs)

  any-and_right : (b : Bool) (p : A → Bool) (xs : List A) → any (λ x. p x && b) xs ≡ (any p xs && b)
  any-and_right b p [] = refl
  any-and_right b p (x ∷ xs) = ground (arith, any-and_right b p xs)

  pub any-where : (p q : A → Bool) (xs : List A) → any q (where_ p xs) ≡ any (λ x. p x && q x) xs
  any-where p q [] = refl
  any-where p q (x ∷ xs) = ground (arith, any-where p q xs)

any-swap :
    {A B : Type 0} (f : A → B → Bool) (xs : List A) (ys : List B)
    → any (λ x. any (f x) ys) xs ≡ any (λ y. any (λ x. f x y) xs) ys
any-swap f [] ys = sym (any-none ys)
any-swap f (x ∷ xs) ys =
    ap (λ b. any (f x) ys || b) (any-swap f xs ys)
    ∙ sym (any-or (f x) (λ y. any (λ z. f z y) xs) ys)

-- A test on the inner rows goes through a join.
join_test :
    {A B : Type 0} (r : B → Bool) (f : A → B → Bool) (c : A → Bool) (xs : List A) (ys : List B)
    → any (λ x. any (λ y. r y && f x y) ys && c x) xs
      ≡ any (λ y. r y && any (λ x. f x y && c x) xs) ys
join_test r f c xs ys =
    any-cong _ (λ x. any (λ y. r y && (f x y && c x)) ys) xs
      (λ x. sym (any-and_right (c x) (λ y. r y && f x y) ys) ∙ any-cong _ _ ys (λ y. ground arith))
    ∙ any-swap (λ x y. r y && (f x y && c x)) xs ys
    ∙ any-cong _ _ ys (λ y. any-and (r y) (λ x. f x y && c x) xs)

module _ (k : ℕ) (code : String) where
  abbrev is_row : ℕ × Permission → Bool
  is_row p = p.0 == k && p.1.code == code

  abbrev has_code : Option Permission → Bool
  has_code none = false
  has_code (some p) = p.code == code

  no_row : (t : Table Permission) → lookup k t ≡ none → any is_row t ≡ false
  no_row [] h = refl
  no_row (x ∷ t) h = ground (arith, no_row t)

  -- the join with the table of permissions, on its primary key
  row_found :
      (t : Table Permission) → has_unique_keys t ≡ true → any is_row t ≡ has_code (lookup k t)
  row_found [] u = refl
  row_found (x ∷ t) u = elim (Bool-cases (x.0 == k)) [
    | inl e ↦
        let key : x.0 ≡ k = (nat_beq_iff x.0 k).0 e in
        let gone : lookup k t ≡ none = subst (λ j. lookup j t ≡ none) key (ground arith) in
        ground (arith, e, no_row t gone)
    | inr ne ↦ ground (arith, ne, row_found t)
  ]

module _ (code : String) (db : AccessDb) (good : access_ok db ≡ true) where
  grant_join :
      (g : RolePermission)
      → any (λ p. p.0 == g.permission_id && p.1.code == code) db.permissions ≡ grants code db g
  unfolding access_ok
  grant_join g = row_found g.permission_id code db.permissions (ground arith)

  -- the same, under the grants of a role
  role_join :
      (role_id : Uuid)
      → any
          (λ p.
            any (λ g. g.1.role_id == role_id && p.0 == g.1.permission_id) db.role_permissions
            && p.1.code == code)
          db.permissions
        ≡ role_grants role_id code db
  role_join role_id =
      join_test (λ g. g.1.role_id == role_id) (λ p g. p.0 == g.1.permission_id)
        (λ p. p.1.code == code) db.permissions db.role_permissions
      ∙ any-cong _ _ db.role_permissions
          (λ g. ap (λ b. (g.1.role_id == role_id) && b) (grant_join g.1))

  user_join :
      (user_id : Uuid)
      → any (λ p. is_permission_of user_id db p.0 && p.1.code == code) db.permissions
        ≡ has_permission user_id code db
  unfolding has_permission
  user_join user_id =
      join_test (λ a. a.1.user_id == user_id)
        (λ p a.
          any (λ g. g.1.role_id == a.1.role_id && p.0 == g.1.permission_id) db.role_permissions)
        (λ p. p.1.code == code) db.permissions db.user_roles
      ∙ any-cong _ _ db.user_roles
          (λ a. ap (λ b. (a.1.user_id == user_id) && b) (role_join a.1.role_id))

-- Over a database whose constraints hold, when the list of a user's permissions is returned,
-- `require_permission` lets the user through for the codes on that list and raises permission_denied
-- for every other code, however the database compares texts.
pub list_user_permissions-require_permission :
    (text_le : String → String → Bool) (user_id : Uuid) (db : AccessDb)
    (ps : List (Uuid × Permission)) (code : String)
    → access_ok db ≡ true
    → list_user_permissions text_le user_id db ≡ ok ps
    → require_permission code user_id db
      ≡ (if any (λ p. p.1.code == code) ps then ok user_id else err permission_denied)
unfolding list_user_permissions require_permission
list_user_permissions-require_permission text_le user_id db ps code good h =
    let le = λ (a b : Uuid × Permission). text_le a.1.code b.1.code in
    let own = where_ (λ p. is_permission_of user_id db p.0) db.permissions in
    let (_, _, h1) = >>=-eq-ok (or_raise (lookup user_id db.users) not_found) _ _ h in
    let same : ps ≡ order_by le own = ground arith in
    let listed : any (λ p. p.1.code == code) ps ≡ has_permission user_id code db =
      ap (any (λ p. p.1.code == code)) same
      ∙ any-order_by le (λ p. p.1.code == code) own
      ∙ any-where (λ p. is_permission_of user_id db p.0) (λ p. p.1.code == code) db.permissions
      ∙ user_join code db good user_id in
    rw listed (ground arith)
