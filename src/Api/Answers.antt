-- ===== src/Api/Answers.antt =====
-- The answer of a call, and the database after it.
use timber_ops.Prelude.{
  ℕ, ◌≡◌, ◌≤◌, ◌<◌, String, string_eq, Bool, true, false, ◌==◌, nat_eq, Option, some, any, first,
}
use timber_ops.Domain.Errors.{Error, ok, err, authentication}
use timber_ops.Store.Rows.{Uuid, User}
use timber_ops.Store.Db.{Db}
use timber_ops.Access.Rows.{AccessDb}
use timber_ops.Access.Roles.{has_permission}
use timber_ops.System.Requests.{execute}
use timber_ops.Api.Exceptions.{class_index, mro}
use timber_ops.Api.{Call, Claims, permission_code, request_of, is_claimed, get_current_user}

-- A subclass of DomainError.
abbrev pub is_domain : Error → Bool
is_domain e = any (λ c. class_index c == 0) (mro e)

module _ (lower : String → String) (decode : String → Option Claims) where
  -- The cases of a call: its user is not known; is not permitted; the call is done; the service
  -- raises an exception of the domain; or another one.
  pub data IsAnswered (call : Call) (access : AccessDb) (db : Db) (status : ℕ) (db' : Db)
      : Type 0 where
    unknown :
        get_current_user lower decode call.credentials access ≡ err authentication
        → status ≡ 401
        → db' ≡ db
        → IsAnswered call access db status db'
    forbidden :
        (id : Uuid)
        → has_permission id (permission_code call.route) access ≡ false
        → status ≡ 403
        → db' ≡ db
        → IsAnswered call access db status db'
    done :
        (claims : Claims) (id : Uuid) (u : User)
        → first (is_claimed claims) access.users ≡ some (id, u)
        → u.is_active ≡ true
        → has_permission id (permission_code call.route) access ≡ true
        → execute call.env (request_of id call.route) db ≡ ok db'
        → 200 ≤ status
        → status < 300
        → IsAnswered call access db status db'
    refused :
        (id : Uuid) (e : Error)
        → execute call.env (request_of id call.route) db ≡ err e
        → is_domain e ≡ true
        → 400 ≤ status
        → status < 500
        → db' ≡ db
        → IsAnswered call access db status db'
    failed :
        (id : Uuid) (e : Error)
        → execute call.env (request_of id call.route) db ≡ err e
        → is_domain e ≡ false
        → status ≡ 500
        → db' ≡ db
        → IsAnswered call access db status db'
