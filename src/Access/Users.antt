-- ===== src/Access/Users.antt =====
-- backend/app/services/user_service.py. Hashing, which bcrypt does, is a parameter of the section.
use timber_ops.Prelude.{
  String, Bool, true, not, ◌||◌, Option, some, none, ◌==◌, string_eq, is_none, insert, first_where,
}
use timber_ops.Domain.Errors.{Result, ok, err, conflict, authentication, ◌>>=◌, ◌>>◌, raise_if}
use timber_ops.Store.Rows.{Uuid, User}
use timber_ops.Store.Db.{Env}
use timber_ops.Store.Session.{as_conflict}
use timber_ops.Access.Rows.{AccessDb, flush_access}

pub record UserRegister : Type 0 where
  pub username : String
  pub password : String
  pub real_name : String

abbrev pub has_name : String → User → Bool
has_name username u = u.username == username

module _ (hash_password : String → String) (verify_password : String → String → Bool) where
  abbrev pub new_user : Env → UserRegister → User
  new_user env input = record {
    username = input.username;
    password_hash = hash_password input.password;
    real_name = input.real_name;
    is_active = true;
    created_at = env.now;
    updated_at = env.now;
  }

  abbrev pub user_added : Env → UserRegister → AccessDb → AccessDb
  user_added env input db = record db { users = insert (env.uuid 0) (new_user env input) db.users }

  unfoldable pub register : Env → UserRegister → AccessDb → Result ((Uuid × User) × AccessDb)
  unfolding flush_access
  register env input db = do
    raise_if (not (is_none (first_where (has_name input.username) db.users))) conflict
    db' ← as_conflict (flush_access (user_added env input db))
    ok ((env.uuid 0, new_user env input), db')

  -- Without such a user a dummy hash is compared too, and the call raises all the same.
  abbrev checked : String → Option (Uuid × User) → Result (Uuid × User)
  checked password none = err authentication
  checked password (some user) = do
    raise_if (not user.1.is_active || not (verify_password password user.1.password_hash))
        authentication
    ok user

  unfoldable pub authenticate : String → String → AccessDb → Result (Uuid × User)
  authenticate username password db = checked password (first_where (has_name username) db.users)
