-- ===== src/Api.antt =====
-- The HTTP routes of backend/app/api/v1 that write vehicles, customers, tasks, fees and reversals,
-- with the dependencies of backend/app/api/dependencies.py and backend/app/security/permissions.py.
pub mod Exceptions
pub mod Permitted
pub mod Answers
use timber_ops.Prelude.{
  ℕ, String, string_eq, Bool, not, ◌&&◌, ◌==◌, nat_eq, Option, none, some, List, [], ◌∷◌, first,
  if◌then◌else◌,
}
use timber_ops.Domain.Errors.{Result, ok, err, authentication, ◌>>=◌, ◌>>◌, raise_if, or_raise}
use timber_ops.Store.Rows.{Uuid, User}
use timber_ops.Store.Db.{Db, Env}
use timber_ops.Access.Rows.{AccessDb}
use timber_ops.Access.Roles.{require_permission}
use timber_ops.Weighing.Inputs.{
  WeighingTaskCreate, TareWeightInput, GrossWeightInput, ReweighInput, DeleteEntityInput,
}
use timber_ops.Master.Vehicles.{VehicleCreate, VehicleUpdate}
use timber_ops.Master.Customers.{CustomerCreate, CustomerUpdate}
use timber_ops.Reversal.{WeighingReversalCreate}
use timber_ops.System.Requests.{Request, execute}
use timber_ops.Api.Exceptions.{respond}

-- A route with its path and its body, validated.
pub data Route : Type 0 where
  create_vehicle : VehicleCreate → Route
  update_vehicle : Uuid → VehicleUpdate → Route
  delete_vehicle : Uuid → DeleteEntityInput → Route
  create_customer : CustomerCreate → Route
  update_customer : Uuid → CustomerUpdate → Route
  delete_customer : Uuid → DeleteEntityInput → Route
  create_task : WeighingTaskCreate → Route
  record_tare : Uuid → TareWeightInput → Route
  start_loading finish_loading : Uuid → Route
  record_gross : Uuid → GrossWeightInput → Route
  record_reweigh : Uuid → ReweighInput → Route
  complete_task : Uuid → Route
  reverse_task : Uuid → WeighingReversalCreate → Route
  delete_task : Uuid → DeleteEntityInput → Route
  pay_billing_record waive_billing_record : Uuid → Route

-- The argument of `require_permission`.
abbrev pub permission_code : Route → String
permission_code (Route.create_vehicle _) = "vehicle:create"
permission_code (Route.update_vehicle _ _) = "vehicle:update"
permission_code (Route.delete_vehicle _ _) = "vehicle:delete"
permission_code (Route.create_customer _) = "customer:create"
permission_code (Route.update_customer _ _) = "customer:update"
permission_code (Route.delete_customer _ _) = "customer:delete"
permission_code (Route.create_task _) = "weighing:create"
permission_code (Route.record_tare _ _) = "weighing:tare"
permission_code (Route.start_loading _) = "weighing:gross"
permission_code (Route.finish_loading _) = "weighing:gross"
permission_code (Route.record_gross _ _) = "weighing:gross"
permission_code (Route.record_reweigh _ _) = "weighing:gross"
permission_code (Route.complete_task _) = "weighing:complete"
permission_code (Route.reverse_task _ _) = "weighing:reverse"
permission_code (Route.delete_task _ _) = "weighing:delete"
permission_code (Route.pay_billing_record _) = "billing:update"
permission_code (Route.waive_billing_record _) = "billing:waive"

-- The call of the service, with the current user as its operator.
abbrev pub request_of : Uuid → Route → Request
request_of user (Route.create_vehicle data_) = Request.post_vehicle data_
request_of user (Route.update_vehicle id data_) = Request.patch_vehicle id data_
request_of user (Route.delete_vehicle id data_) = Request.drop_vehicle id data_ user
request_of user (Route.create_customer data_) = Request.post_customer data_
request_of user (Route.update_customer id data_) = Request.patch_customer id data_
request_of user (Route.delete_customer id data_) = Request.drop_customer id data_ user
request_of user (Route.create_task data_) = Request.post_task data_ user
request_of user (Route.record_tare id data_) = Request.tare id data_ user
request_of user (Route.start_loading id) = Request.wait_gross id
request_of user (Route.finish_loading id) = Request.wait_gross id
request_of user (Route.record_gross id data_) = Request.gross id data_ user
request_of user (Route.record_reweigh id data_) = Request.reweigh id data_ user
request_of user (Route.complete_task id) = Request.complete id user
request_of user (Route.reverse_task id data_) = Request.undo id data_ user
request_of user (Route.delete_task id data_) = Request.drop_task id data_ user
request_of user (Route.pay_billing_record id) = Request.pay id user
request_of user (Route.waive_billing_record id) = Request.forgive id user

-- `status_code` of the route
abbrev pub success_status : Route → ℕ
success_status (Route.create_vehicle _) = 201
success_status (Route.create_customer _) = 201
success_status (Route.create_task _) = 201
success_status (Route.delete_vehicle _ _) = 204
success_status (Route.delete_customer _ _) = 204
success_status (Route.delete_task _ _) = 204
success_status _ = 200

pub record Credentials : Type 0 where
  pub scheme : String
  pub token : String

-- The claims of a token that is valid.
pub record Claims : Type 0 where
  pub sub : Uuid
  pub username : String

abbrev pub is_claimed : Claims → Uuid × User → Bool
is_claimed claims (id, u) = id == claims.sub && u.username == claims.username && u.is_active

-- A call: what it draws, its header and its route.
pub record Call : Type 0 where
  pub env : Env
  pub credentials : Option Credentials
  pub route : Route

-- `str.lower`, and `decode_access_token` over PyJWT, which raises for a token that is not valid, are
-- parameters.
module _ (lower : String → String) (decode : String → Option Claims) where
  unfoldable pub get_current_user : Option Credentials → AccessDb → Result Uuid
  get_current_user credentials db = do
    c ← or_raise credentials authentication
    raise_if (not (lower c.scheme == "bearer")) authentication
    claims ← or_raise (decode c.token) authentication
    user ← or_raise (first (is_claimed claims) db.users) authentication
    ok user.0

  -- The dependencies of a route, resolved.
  unfoldable pub authorized : Call → AccessDb → Result Uuid
  unfolding get_current_user require_permission
  authorized call access = do
    user ← get_current_user call.credentials access
    require_permission (permission_code call.route) user access

  -- The status of the answer, and the database after the call.
  abbrev pub answered : Route → Db → Result Db → ℕ × Db
  answered route db (ok db') = (success_status route, db')
  answered route db (err e) = ((respond e).status_code, db)

  unfoldable pub handle : Call → AccessDb → Db → ℕ × Db
  unfolding authorized respond
  handle call access db =
      answered call.route db
        (authorized call access >>= λ user. execute call.env (request_of user call.route) db)

  -- Calls one after another; what the users may do is not changed between them.
  unfoldable pub serve : List Call → AccessDb → Db → Db
  unfolding handle
  serve [] access db = db
  serve (call ∷ calls) access db = serve calls access (handle call access db).1
