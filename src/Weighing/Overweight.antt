-- ===== src/Weighing/Overweight.antt =====
-- What the weighing service does with an overweight task.
use timber_ops.Prelude.{◌≡◌, sym, ap, ◌∙◌, nat_eq, Option, some, lookup, lookup-update_self, arith}
use timber_ops.Domain.Enums.{
  WeighingStatus, weighing_status_eq, WeightResult, weight_result_eq, WeightType, weight_type_eq,
}
use timber_ops.Domain.Errors.{ok, err, business_rule, invalid_state}
use timber_ops.Store.Rows.{Uuid, WeighingTask}
use timber_ops.Store.Db.{Db, Env}
use timber_ops.Weighing.Inputs.{GrossWeightInput}
use timber_ops.Weighing.Tasks.{get_task_for_update, append_record}
use timber_ops.Weighing.Readings.{record_gross, with_gross}
use timber_ops.Weighing.Lifecycle.{complete_task}
use timber_ops.Weighing.Effects.Active.{IsActive}
use timber_ops.Weighing.Effects.ReadingCalls.{record_gross-eq-ok, record_gross_like-eq-ok}

-- an overweight task that waits for the gross weight
stuck :
    (env : Env) (id : Uuid) (input : GrossWeightInput) (op : Option Uuid) (task : WeighingTask)
    (db : Db)
    → IsActive id db task
    → task.weight_result ≡ WeightResult.overweight
    → task.status ≡ WeighingStatus.wait_gross
    → (complete_task env id op db ≡ err business_rule)
      × (record_gross env id input op db ≡ err invalid_state)
unfolding complete_task record_gross get_task_for_update
stuck env id input op task db a over waits =
    (ground (arith, a.found, a.kept), ground (arith, a.found, a.kept))

-- After a gross reading that is overweight, the task is neither completed nor weighed again by a
-- first reading: `complete_task` and `record_gross` raise, whoever calls them, and change nothing.
pub record_gross_overweight :
    (env env' : Env) (id : Uuid) (input input' : GrossWeightInput) (op op' : Option Uuid) (db : Db)
    (r : WeighingTask) (db' : Db)
    → record_gross env id input op db ≡ ok (r, db')
    → r.weight_result ≡ WeightResult.overweight
    → (r.status ≡ WeighingStatus.wait_gross)
      × (complete_task env' id op' db' ≡ err business_rule)
      × (record_gross env' id input' op' db' ≡ err invalid_state)
unfolding append_record
record_gross_overweight env env' id input input' op op' db r db' h over =
    let (task, active, _, _, _, like) = record_gross-eq-ok env id op db r db' input h in
    let (tare, c, _, _, same, written, _) =
      record_gross_like-eq-ok env id op db r db' task WeightType.gross input.weight_tons
        input.remark like in
    let verdict : c.result ≡ WeightResult.overweight =
      sym (ap (λ t. t.weight_result) same) ∙ over in
    let saved : WeighingTask = record (with_gross env.now c task) { updated_at = env.now } in
    let waits : saved.status ≡ WeighingStatus.wait_gross = ground arith in
    let here : lookup id db'.tasks ≡ some saved =
      ap (λ d. lookup id d.tasks) written
      ∙ lookup-update_self id saved task db.tasks active.found in
    let (uncompleted, unweighed) =
      stuck env' id input' op' saved db' (record { found = here; kept = active.kept }) verdict
        waits in
    (ap (λ t. t.status) same ∙ waits, uncompleted, unweighed)
