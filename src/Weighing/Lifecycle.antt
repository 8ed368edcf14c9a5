-- ===== src/Weighing/Lifecycle.antt =====
-- `create_task`, `complete_task`, `delete_task` and `cancel_task` of WeighingService.
use timber_ops.Prelude.{
  ◌+◌, Bool, true, false, not, Option, none, some, [], ◌∷◌, ◌++◌, is_none, ◌==◌, lookup, insert,
}
use timber_ops.Prelude.Int.{pos}
use timber_ops.Domain.Enums.{
  WeighingDirection, weighing_direction_eq, WeighingStatus, weighing_status_eq, WeightResult,
  weight_result_eq,
}
use timber_ops.Domain.Errors.{
  Result, ok, not_found, invalid_state, business_rule, ◌>>=◌, ◌>>◌, raise_if, or_raise,
}
use timber_ops.Domain.Decimal.{Tons, quantize_tons, of_tons}
use timber_ops.Store.Rows.{Uuid, Time, Vehicle, WeighingTask, JsonValue}
use timber_ops.Store.Db.{Db, Env}
use timber_ops.Store.Session.{commit}
use timber_ops.Billing.Fees.{ensure_record_for_completed_task}
use timber_ops.Weighing.Inputs.{WeighingTaskCreate, CancelWeighingTaskInput, DeleteEntityInput}
use timber_ops.Weighing.Tasks.{get_task_for_update, require_status, save_task, add_audit}
use timber_ops.Weighing.Readings.{status_json, with_status}

-- A customer that is named must be there and not be deleted.
abbrev pub require_customer : Option Uuid → Db → Result (Unit {0})
require_customer none db = ok tt
require_customer (some customer_id) db = do
  customer ← or_raise (lookup customer_id db.customers) not_found
  raise_if (not (is_none customer.deleted_at)) not_found

-- The new task, of a vehicle and its allowed weight.
abbrev pub new_task : Env → WeighingTaskCreate → Vehicle → Tons → Option Uuid → WeighingTask
new_task env input vehicle allowed operator_id = record {
  task_no = env.task_no;
  vehicle_id = input.vehicle_id;
  customer_id = input.customer_id;
  weighing_direction = input.weighing_direction;
  cargo_type = input.cargo_type;
  cargo_name = input.cargo_name;
  cargo_remark = input.cargo_remark;
  driver_name_snapshot = vehicle.driver_name;
  driver_phone_snapshot = vehicle.driver_phone;
  tare_weight_tons = none;
  gross_weight_tons = none;
  net_weight_tons = none;
  allowed_gross_weight_tons = allowed;
  overweight_tons = pos 0;
  status = WeighingStatus.wait_tare;
  weight_result = WeightResult.pending;
  tare_time = none;
  gross_time = none;
  completed_at = none;
  created_by = operator_id;
  version = 1;
  deleted_at = none;
  deleted_by = none;
  delete_reason = none;
  created_at = env.now;
  updated_at = env.now;
}

abbrev pub create_written : Env → WeighingTaskCreate → Vehicle → Tons → Option Uuid → Db → Db
create_written env input vehicle allowed operator_id db =
    add_audit env 1 operator_id "WEIGHING_TASK_CREATED" "WeighingTask" (env.uuid 0) none
      (some (status_json WeighingStatus.wait_tare)) none
      (record db {
        tasks = insert (env.uuid 0) (new_task env input vehicle allowed operator_id) db.tasks;
      })

unfoldable pub create_task :
    Env → WeighingTaskCreate → Option Uuid → Db → Result ((Uuid × WeighingTask) × Db)
create_task env input operator_id db = do
  vehicle ← or_raise (lookup input.vehicle_id db.vehicles) not_found
  raise_if (not (is_none vehicle.deleted_at)) not_found
  raise_if (is_none vehicle.vehicle_type) business_rule
  require_customer input.customer_id db
  raise_if (not (input.weighing_direction == WeighingDirection.outbound)) business_rule
  allowed ← quantize_tons (of_tons vehicle.allowed_gross_weight_tons)
  db' ← commit (create_written env input vehicle allowed operator_id db)
  ok ((env.uuid 0, new_task env input vehicle allowed operator_id), db')

abbrev pub with_completion : Time → WeighingTask → WeighingTask
with_completion now task = record task {
  status = WeighingStatus.completed;
  completed_at = some now;
  version = task.version + 1;
}

abbrev pub complete_audited : Env → Uuid → Option Uuid → Db → Db
complete_audited env task_id operator_id db =
    add_audit env 1 operator_id "WEIGHING_TASK_COMPLETED" "WeighingTask" task_id
      (some (status_json WeighingStatus.gross_completed))
      (some (status_json WeighingStatus.completed)) none db

unfoldable pub complete_task : Env → Uuid → Option Uuid → Db → Result (WeighingTask × Db)
complete_task env task_id operator_id db = do
  task ← get_task_for_update task_id db
  raise_if (not (task.weight_result == WeightResult.normal)) business_rule
  require_status task WeighingStatus.gross_completed
  let task' = with_completion env.now task
  billed ←
      ensure_record_for_completed_task env 0 task_id task' (some env.now)
        (save_task env task_id task' db)
  db' ← commit (complete_audited env task_id operator_id billed.1)
  ok (task', db')

-- `_DELETABLE_STATUSES`
abbrev pub is_deletable : WeighingStatus → Bool
is_deletable WeighingStatus.wait_tare = true
is_deletable WeighingStatus.tare_completed = true
is_deletable WeighingStatus.wait_gross = true
is_deletable _ = false

-- `_CANCELLABLE_STATUSES`
abbrev pub is_cancellable : WeighingStatus → Bool
is_cancellable WeighingStatus.wait_tare = true
is_cancellable WeighingStatus.tare_completed = true
is_cancellable WeighingStatus.wait_gross = true
is_cancellable WeighingStatus.gross_completed = true
is_cancellable _ = false

abbrev pub with_deletion : Time → Option Uuid → DeleteEntityInput → WeighingTask → WeighingTask
with_deletion now operator_id input task = record task {
  deleted_at = some now;
  deleted_by = operator_id;
  delete_reason = some input.reason;
}

abbrev pub delete_written : Env → Uuid → DeleteEntityInput → Option Uuid → WeighingTask → Db → Db
delete_written env task_id input operator_id task db =
    add_audit env 0 operator_id "WEIGHING_TASK_DELETED" "WeighingTask" task_id
      (some (status_json task.status ++ ("deleted_at", JsonValue.null) ∷ []))
      (some (status_json task.status ++ ("deleted_at", JsonValue.time_text env.now) ∷ []))
      (some input.reason) (save_task env task_id (with_deletion env.now operator_id input task) db)

unfoldable pub delete_task : Env → Uuid → DeleteEntityInput → Option Uuid → Db → Result Db
delete_task env task_id input operator_id db = do
  task ← get_task_for_update task_id db
  raise_if (not (is_deletable task.status)) invalid_state
  commit (delete_written env task_id input operator_id task db)

abbrev pub cancel_written :
    Env → Uuid → CancelWeighingTaskInput → Option Uuid → WeighingTask → Db → Db
cancel_written env task_id input operator_id task db =
    add_audit env 0 operator_id "WEIGHING_TASK_CANCELLED" "WeighingTask" task_id
      (some (status_json task.status)) (some (status_json WeighingStatus.cancelled))
      (some input.reason) (save_task env task_id (with_status WeighingStatus.cancelled task) db)

unfoldable pub cancel_task :
    Env → Uuid → CancelWeighingTaskInput → Option Uuid → Db → Result (WeighingTask × Db)
cancel_task env task_id input operator_id db = do
  task ← get_task_for_update task_id db
  raise_if (not (is_cancellable task.status)) invalid_state
  db' ← commit (cancel_written env task_id input operator_id task db)
  ok (with_status WeighingStatus.cancelled task, db')
