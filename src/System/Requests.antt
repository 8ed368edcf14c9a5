-- ===== src/System/Requests.antt =====
-- The calls that change vehicles, customers, tasks, fees and reversals (those of the routes of
-- backend/app/api/v1, and `cancel_task`, which has no route), as one data type, and a run of them. A request that raises changes nothing.
use timber_ops.Prelude.{some, List, [], ◌∷◌}
use timber_ops.Domain.Errors.{Result, ok, err}
use timber_ops.Store.Rows.{Uuid}
use timber_ops.Store.Db.{Db, Env}
use timber_ops.Weighing.Inputs.{
  WeighingTaskCreate, TareWeightInput, GrossWeightInput, ReweighInput, CancelWeighingTaskInput,
  DeleteEntityInput,
}
use timber_ops.Weighing.Readings.{record_tare, prepare_for_gross, record_gross, record_reweigh}
use timber_ops.Weighing.Lifecycle.{create_task, complete_task, delete_task, cancel_task}
use timber_ops.Billing.Payments.{mark_paid, waive}
use timber_ops.Reversal.{WeighingReversalCreate, reverse}
use timber_ops.Master.Vehicles.{
  VehicleCreate, VehicleUpdate, create_vehicle, update_vehicle, delete_vehicle,
}
use timber_ops.Master.Customers.{
  CustomerCreate, CustomerUpdate, create_customer, update_customer, delete_customer,
}

-- The operator is the authenticated user.
pub data Request : Type 0 where
  post_vehicle : VehicleCreate → Request
  patch_vehicle : Uuid → VehicleUpdate → Request
  drop_vehicle : Uuid → DeleteEntityInput → Uuid → Request
  post_customer : CustomerCreate → Request
  patch_customer : Uuid → CustomerUpdate → Request
  drop_customer : Uuid → DeleteEntityInput → Uuid → Request
  post_task : WeighingTaskCreate → Uuid → Request
  tare : Uuid → TareWeightInput → Uuid → Request
  wait_gross : Uuid → Request
  gross : Uuid → GrossWeightInput → Uuid → Request
  reweigh : Uuid → ReweighInput → Uuid → Request
  complete : Uuid → Uuid → Request
  drop_task : Uuid → DeleteEntityInput → Uuid → Request
  cancel : Uuid → CancelWeighingTaskInput → Uuid → Request
  pay forgive : Uuid → Uuid → Request
  undo : Uuid → WeighingReversalCreate → Uuid → Request

-- The database that a call leaves.
abbrev pub state : {A : Type 0} → Result (A × Db) → Result Db
state (ok (_, db)) = ok db
state (err e) = err e

-- Requests are taken one after another: no other session commits inside `reverse`.
unfoldable pub execute : Env → Request → Db → Result Db
execute env (Request.post_vehicle input) db = state (create_vehicle env input db)
execute env (Request.patch_vehicle id input) db = state (update_vehicle env id input db)
execute env (Request.drop_vehicle id input op) db = delete_vehicle env id input (some op) db
execute env (Request.post_customer input) db = state (create_customer env input db)
execute env (Request.patch_customer id input) db = state (update_customer env id input db)
execute env (Request.drop_customer id input op) db = delete_customer env id input (some op) db
execute env (Request.post_task input op) db = state (create_task env input (some op) db)
execute env (Request.tare id input op) db = state (record_tare env id input (some op) db)
execute env (Request.wait_gross id) db = state (prepare_for_gross env id db)
execute env (Request.gross id input op) db = state (record_gross env id input (some op) db)
execute env (Request.reweigh id input op) db = state (record_reweigh env id input (some op) db)
execute env (Request.complete id op) db = state (complete_task env id (some op) db)
execute env (Request.drop_task id input op) db = delete_task env id input (some op) db
execute env (Request.cancel id input op) db = state (cancel_task env id input (some op) db)
execute env (Request.pay id op) db = state (mark_paid env id op db)
execute env (Request.forgive id op) db = state (waive env id op db)
execute env (Request.undo id input op) db = state (reverse env id input op (λ d. d) db)

abbrev pub after : Db → Result Db → Db
after db (ok db') = db'
after db (err _) = db

unfoldable pub step : Env × Request → Db → Db
step (env, r) db = after db (execute env r db)

unfoldable pub run : List (Env × Request) → Db → Db
run [] db = db
run (r ∷ rs) db = run rs (step r db)
