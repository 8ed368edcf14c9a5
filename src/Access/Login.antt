-- ===== src/Access/Login.antt =====
-- A user who has registered can log in, with the password and with no other.
use timber_ops.Prelude.{
  ◌≡◌, refl, sym, ap, ◌∙◌, String, Bool, true, false, not, string_eq, is_none, some, none,
  first_where, first_where-insert_new, arith,
}
use timber_ops.Domain.Errors.{ok, err, conflict, authentication, >>=-eq-ok, raise_if-eq-ok}
use timber_ops.Store.Rows.{Uuid, User}
use timber_ops.Store.Db.{Env}
use timber_ops.Store.Session.{as_conflict}
use timber_ops.Access.Rows.{AccessDb, flush_access}
use timber_ops.Access.Users.{UserRegister, has_name, new_user, user_added, register, authenticate}
use timber_ops.Access.Admins.{as_conflict-eq-ok}

module _ (hash_password : String → String) (verify_password : String → String → Bool) where
  -- the user who is found under the new name
  found_after :
      (env : Env) (input : UserRegister) (db db' : AccessDb) (r : Uuid × User)
      → register hash_password verify_password env input db ≡ ok (r, db')
      → (first_where (has_name input.username) db'.users ≡ some r)
        × (r ≡ (env.uuid 0, new_user hash_password verify_password env input))
  unfolding register
  found_after env input db db' r h =
      let new = new_user hash_password verify_password env input in
      let (free, h1) =
        raise_if-eq-ok (not (is_none (first_where (has_name input.username) db.users))) conflict _ _
          h in
      let (d, de, h2) =
        >>=-eq-ok
          (as_conflict (flush_access (user_added hash_password verify_password env input db))) _ _
          h1 in
      let (written, _) =
        as_conflict-eq-ok (user_added hash_password verify_password env input db) d de in
      let same : db' ≡ d = ground arith in
      let made : r ≡ (env.uuid 0, new) = ground arith in
      let no_one : first_where (has_name input.username) db.users ≡ none = ground arith in
      let named : has_name input.username new ≡ true =
        (string_eq.same_iff input.username input.username).1 refl in
      (
        ap (λ x. first_where (has_name input.username) x.users) (same ∙ written)
            ∙ first_where-insert_new (has_name input.username) (env.uuid 0) new db.users no_one
                named
            ∙ ap some (sym made),
        made,
      )

  -- Where a password is verified against its own hash, a user who has just registered is
  -- authenticated by the name and the password, and refused with any password that is not verified
  -- against that hash.
  pub register-authenticate :
      ((password : String) → verify_password password (hash_password password) ≡ true)
      → (env : Env) (input : UserRegister) (db db' : AccessDb) (r : Uuid × User)
      → register hash_password verify_password env input db ≡ ok (r, db')
      → (authenticate hash_password verify_password input.username input.password db' ≡ ok r)
        × ((other : String)
            → verify_password other (hash_password input.password) ≡ false
            → authenticate hash_password verify_password input.username other db'
              ≡ err authentication)
  unfolding authenticate
  register-authenticate verifies env input db db' r h =
      let (found, made) = found_after env input db db' r h in
      let knows = verifies input.password in
      (rw (found, made, knows) refl, λ other wrong. rw (found, made, wrong) refl)
