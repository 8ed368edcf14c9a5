-- ===== src/Weighing/Readings.antt =====
-- `record_tare`, `prepare_for_gross`, `record_gross` and `record_reweigh` of WeighingService.
use timber_ops.Prelude.{
  ◌+◌, String, not, ◌||◌, Option, none, some, [], ◌∷◌, ◌++◌, ◌==◌, if◌then◌else◌,
}
use timber_ops.Domain.Text.{is_blank}
use timber_ops.Domain.Enums.{
  WeighingStatus, weighing_status_eq, weighing_status_value, WeightResult, weight_result_eq,
  weight_result_value, WeightType, weight_type_eq,
}
use timber_ops.Domain.Errors.{
  Result, ok, invalid_state, business_rule, ◌>>=◌, ◌>>◌, raise_if, or_raise,
}
use timber_ops.Domain.Decimal.{Decimal, Tons, quantize_tons, of_tons}
use timber_ops.Domain.Weighing.{WeightCalculation, calculate_weight}
use timber_ops.Store.Rows.{Uuid, Time, WeighingTask, JsonValue, JsonObject}
use timber_ops.Store.Db.{Db, Env}
use timber_ops.Store.Session.{commit}
use timber_ops.Weighing.Inputs.{TareWeightInput, GrossWeightInput, ReweighInput}
use timber_ops.Weighing.Tasks.{
  get_task_for_update, require_status, append_record, has_gross_record, save_task, add_audit,
}

-- The JSON object that shows a status.
abbrev pub status_json : WeighingStatus → JsonObject
status_json s = ("status", JsonValue.text (weighing_status_value s)) ∷ []

-- The task after a tare reading.
abbrev pub with_tare : Time → Tons → WeighingTask → WeighingTask
with_tare now weight task = record task {
  tare_weight_tons = some weight;
  tare_time = some now;
  status = WeighingStatus.tare_completed;
  version = task.version + 1;
}

-- What `record_tare` adds to the session: a reading, the changed task, an audit entry.
abbrev pub tare_written : Env → Uuid → TareWeightInput → Option Uuid → WeighingTask → Tons → Db → Db
tare_written env task_id input operator_id task weight db =
    add_audit env 1 operator_id "TARE_RECORDED" "WeighingTask" task_id
      (some (status_json WeighingStatus.wait_tare))
      (some (
        status_json WeighingStatus.tare_completed
        ++ ("weight_tons", JsonValue.decimal_text weight) ∷ []))
      none
      (save_task env task_id (with_tare env.now weight task)
        (append_record env 0 task_id WeightType.tare weight operator_id input.remark db))

unfoldable pub record_tare :
    Env → Uuid → TareWeightInput → Option Uuid → Db → Result (WeighingTask × Db)
record_tare env task_id input operator_id db = do
  task ← get_task_for_update task_id db
  require_status task WeighingStatus.wait_tare
  weight ← quantize_tons input.weight_tons
  db' ← commit (tare_written env task_id input operator_id task weight db)
  ok (with_tare env.now weight task, db')

abbrev pub with_status : WeighingStatus → WeighingTask → WeighingTask
with_status s task = record task { status = s; version = task.version + 1 }

-- Also `start_loading` and `finish_loading`, its two aliases. A task that waits for the gross
-- weight already is returned as it is.
unfoldable pub prepare_for_gross : Env → Uuid → Db → Result (WeighingTask × Db)
prepare_for_gross env task_id db = do
  task ← get_task_for_update task_id db
  if task.status == WeighingStatus.wait_gross then ok (task, db) else do
    require_status task WeighingStatus.tare_completed
    let task' = with_status WeighingStatus.wait_gross task
    db' ← commit (save_task env task_id task' db)
    ok (task', db')

-- The task after a gross reading or a reweigh.
abbrev pub with_gross : Time → WeightCalculation → WeighingTask → WeighingTask
with_gross now c task = record task {
  gross_weight_tons = some c.gross_weight_tons;
  net_weight_tons = some c.net_weight_tons;
  overweight_tons = c.overweight_tons;
  weight_result = c.result;
  gross_time = some now;
  status =
      if c.result == WeightResult.normal
      then WeighingStatus.gross_completed
      else WeighingStatus.wait_gross;
  version = task.version + 1;
}

-- What a gross reading or a reweigh adds to the session.
abbrev pub gross_written :
    Env
    → Uuid
    → WeighingTask
    → WeightType
    → WeightCalculation
    → Option Uuid
    → Option String
    → Db
    → Db
gross_written env task_id task weight_type c operator_id remark db =
    let task' = with_gross env.now c task in
    let is_reweigh = weight_type == WeightType.reweigh in
    add_audit env 1 operator_id (if is_reweigh then "REWEIGH_RECORDED" else "GROSS_RECORDED")
      "WeighingTask" task_id (some (status_json WeighingStatus.wait_gross))
      (some (
        status_json task'.status
        ++ ("weight_tons", JsonValue.decimal_text c.gross_weight_tons)
          ∷ ("weight_result", JsonValue.text (weight_result_value task'.weight_result))
          ∷ []))
      (if is_reweigh then remark else none)
      (save_task env task_id task'
        (append_record env 0 task_id weight_type c.gross_weight_tons operator_id remark db))

-- `_record_gross_like`
unfoldable pub record_gross_like :
    Env
    → Uuid
    → WeighingTask
    → WeightType
    → Decimal
    → Option Uuid
    → Option String
    → Db
    → Result (WeighingTask × Db)
record_gross_like env task_id task weight_type weight_tons operator_id remark db = do
  tare ← or_raise task.tare_weight_tons invalid_state
  c ← calculate_weight (of_tons tare) weight_tons (of_tons task.allowed_gross_weight_tons)
  db' ← commit (gross_written env task_id task weight_type c operator_id remark db)
  ok (with_gross env.now c task, db')

unfoldable pub record_gross :
    Env → Uuid → GrossWeightInput → Option Uuid → Db → Result (WeighingTask × Db)
record_gross env task_id input operator_id db = do
  task ← get_task_for_update task_id db
  require_status task WeighingStatus.wait_gross
  raise_if (not (task.weight_result == WeightResult.pending) || has_gross_record task_id db)
      invalid_state
  record_gross_like env task_id task WeightType.gross input.weight_tons operator_id input.remark db

unfoldable pub record_reweigh :
    Env → Uuid → ReweighInput → Option Uuid → Db → Result (WeighingTask × Db)
record_reweigh env task_id input operator_id db = do
  task ← get_task_for_update task_id db
  require_status task WeighingStatus.wait_gross
  raise_if (not (task.weight_result == WeightResult.overweight)) business_rule
  raise_if (is_blank input.remark) business_rule
  record_gross_like env task_id task WeightType.reweigh input.weight_tons operator_id
      (some input.remark) db
