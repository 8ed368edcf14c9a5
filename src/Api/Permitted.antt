-- ===== src/Api/Permitted.antt =====
-- Calls of the routes come to the requests of their users that are permitted.
use timber_ops.Prelude.{
  ◌≡◌, refl, ap, ◌∙◌, inl, inr, String, string_eq, Bool, true, false, not, ◌==◌, Bool-cases,
  Option-cases, Option, none, some, List, [], ◌∷◌, first, if◌then◌else◌,
}
use timber_ops.Domain.Errors.{
  Result, ok, err, authentication, permission_denied, raise_if, ◌>>◌, or_raise, ◌>>=◌, Result-cases,
}
use timber_ops.Store.Rows.{Uuid, User}
use timber_ops.Access.Roles.{has_permission, require_permission}
use timber_ops.Store.Db.{Db, Env}
use timber_ops.Access.Rows.{AccessDb}
use timber_ops.System.Requests.{Request, execute, after, step, run}
use timber_ops.Api.{
  Call, Claims, Credentials, permission_code, is_claimed, request_of, get_current_user, authorized,
  answered, handle, serve,
}

abbrev pub with_request : Call → Option Uuid → List (Env × Request) → List (Env × Request)
with_request call none requests = requests
with_request call (some user) requests = (call.env, request_of user call.route) ∷ requests

abbrev returned : Result Uuid → Option Uuid
returned (ok user) = some user
returned (err _) = none

abbrev pub id_of : Option (Uuid × User) → Option Uuid
id_of none = none
id_of (some row) = some row.0

abbrev pub claimed : Option Claims → AccessDb → Option Uuid
claimed none access = none
claimed (some claims) access = id_of (first (is_claimed claims) access.users)

abbrev pub with_permission : String → AccessDb → Option Uuid → Option Uuid
with_permission code access none = none
with_permission code access (some user) =
    if has_permission user code access then some user else none

checked :
    (user : Uuid) (may : Bool)
    → returned (raise_if (not may) permission_denied >> ok user) ≡ (if may then some user else none)
checked user true = refl
checked user false = refl

module _ (lower : String → String) (decode : String → Option Claims) where
  -- The active user whom the token of a header names.
  abbrev pub named : Option Credentials → AccessDb → Option Uuid
  named none access = none
  named (some c) access =
      if lower c.scheme == "bearer" then claimed (decode c.token) access else none

  -- The user of a call, if there is one with the permission of the route.
  abbrev pub operator_of : Call → AccessDb → Option Uuid
  operator_of call access =
      with_permission (permission_code call.route) access (named call.credentials access)

  abbrev pub permitted : List Call → AccessDb → List (Env × Request)
  permitted [] access = []
  permitted (call ∷ calls) access =
      with_request call (operator_of call access) (permitted calls access)

  returned-claimed :
      (claims : Option Claims) (access : AccessDb)
      → returned (
          or_raise claims authentication >>= λ c.
          or_raise (first (is_claimed c) access.users) authentication >>= λ u. ok u.0)
        ≡ claimed claims access
  returned-claimed none access = refl
  returned-claimed (some c) access = elim (Option-cases (first (is_claimed c) access.users)) [
    | inl missing ↦ rw missing refl
    | inr (row, found) ↦ rw found refl
  ]

  returned-named :
      (c : Option Credentials) (access : AccessDb)
      → returned (get_current_user lower decode c access) ≡ named c access
  unfolding get_current_user
  returned-named none access = refl
  returned-named (some c) access = elim (Bool-cases (lower c.scheme == "bearer")) [
    | inl bearer ↦ rw bearer (returned-claimed (decode c.token) access)
    | inr other ↦ rw other refl
  ]

  returned-with_permission :
      (code : String) (access : AccessDb) (r : Result Uuid)
      → returned (r >>= λ user. require_permission code user access)
        ≡ with_permission code access (returned r)
  unfolding require_permission
  returned-with_permission code access (err e) = refl
  returned-with_permission code access (ok user) = checked user (has_permission user code access)

  returned-operator_of :
      (call : Call) (access : AccessDb)
      → returned (authorized lower decode call access) ≡ operator_of call access
  unfolding authorized
  returned-operator_of call access =
      returned-with_permission (permission_code call.route) access
        (get_current_user lower decode call.credentials access)
      ∙ ap (with_permission (permission_code call.route) access)
          (returned-named call.credentials access)

  answered-after :
      (call : Call) (db : Db) (r : Result Db)
      → (answered lower decode call.route db r).1 ≡ after db r
  answered-after call db (ok db') = refl
  answered-after call db (err e) = refl

  one_call :
      (call : Call) (access : AccessDb) (db : Db) (rest : List (Env × Request))
      → run rest (handle lower decode call access db).1
        ≡ run (with_request call (returned (authorized lower decode call access)) rest) db
  unfolding handle run step
  one_call call access db rest = elim (Result-cases (authorized lower decode call access)) [
    | inr (e, refused) ↦ rw refused refl
    | inl (user, passed) ↦
        rw passed (
          ap (run rest) (answered-after call db (execute call.env (request_of user call.route) db)))
  ]

  -- Whatever the calls, the database after them is the one after the requests, in the same order,
  -- of those whose token names an active user with the permission of the route, each with that user
  -- as its operator; the others leave no trace.
  pub serve-run :
      (calls : List Call) (access : AccessDb) (db : Db)
      → serve lower decode calls access db ≡ run (permitted calls access) db
  unfolding serve run
  serve-run [] access db = refl
  serve-run (call ∷ calls) access db =
      serve-run calls access (handle lower decode call access db).1
      ∙ one_call call access db (permitted calls access)
      ∙ ap (λ o. run (with_request call o (permitted calls access)) db)
          (returned-operator_of call access)
