-- ===== src/Weighing/Effects/ReadingCalls.antt =====
-- What `record_tare`, `record_gross` and `record_reweigh` have tested and written when they return.
use timber_ops.Prelude.{◌≡◌, not, ◌||◌, ◌==◌, String, false, Option, some, arith}
use timber_ops.Domain.Text.{is_blank}
use timber_ops.Domain.Enums.{
  WeighingStatus, weighing_status_eq, WeightResult, weight_result_eq, WeightType,
  weighing_direction_eq,
}
use timber_ops.Domain.Errors.{
  ok, invalid_state, or_raise, or_raise-eq-ok, >>=-eq-ok, raise_if-eq-ok,
}
use timber_ops.Domain.Decimal.{Decimal, Tons, quantize_tons, of_tons}
use timber_ops.Domain.Weighing.{WeightCalculation, calculate_weight}
use timber_ops.Store.Rows.{Uuid, WeighingTask}
use timber_ops.Store.Db.{Db, Env}
use timber_ops.Store.Session.{IsCommitted, commits-eq-ok}
use timber_ops.Weighing.Inputs.{TareWeightInput, GrossWeightInput, ReweighInput}
use timber_ops.Weighing.Tasks.{get_task_for_update, has_gross_record}
use timber_ops.Weighing.Readings.{
  with_tare, tare_written, record_tare, with_gross, gross_written, record_gross_like, record_gross,
  record_reweigh,
}
use timber_ops.Weighing.Effects.Active.{IsActive, get_task_for_update-eq-ok}

module _ (env : Env) (id : Uuid) (op : Option Uuid) (db : Db) (r : WeighingTask) (db' : Db) where
  pub record_tare-eq-ok :
      (input : TareWeightInput)
      → record_tare env id input op db ≡ ok (r, db')
      → (task : WeighingTask) × (weight : Tons) × IsActive id db task
        × (task.status ≡ WeighingStatus.wait_tare)
        × (quantize_tons input.weight_tons ≡ ok weight)
        × (r ≡ with_tare env.now weight task)
        × (db' ≡ tare_written env id input op task weight db)
        × IsCommitted db'
  unfolding record_tare
  record_tare-eq-ok input h =
      let (task, te, h1) = >>=-eq-ok (get_task_for_update id db) _ _ h in
      let (st, h2) = raise_if-eq-ok (not (task.status == WeighingStatus.wait_tare)) _ _ _ h1 in
      let (weight, we, h3) = >>=-eq-ok (quantize_tons input.weight_tons) _ _ h2 in
      let (same, written, good) =
        commits-eq-ok (tare_written env id input op task weight db) (with_tare env.now weight task)
          r db' h3 in
      (task, weight, get_task_for_update-eq-ok id db task te, ground arith, we, same, written, good)

  pub record_gross_like-eq-ok :
      (task : WeighingTask) (kind : WeightType) (weight : Decimal) (remark : Option String)
      → record_gross_like env id task kind weight op remark db ≡ ok (r, db')
      → (tare : Tons) × (c : WeightCalculation) × (task.tare_weight_tons ≡ some tare)
        × (calculate_weight (of_tons tare) weight (of_tons task.allowed_gross_weight_tons) ≡ ok c)
        × (r ≡ with_gross env.now c task)
        × (db' ≡ gross_written env id task kind c op remark db)
        × IsCommitted db'
  unfolding record_gross_like
  record_gross_like-eq-ok task kind weight remark h =
      let (tare, te, h1) = >>=-eq-ok (or_raise task.tare_weight_tons invalid_state) _ _ h in
      let (c, ce, h2) =
        >>=-eq-ok (calculate_weight (of_tons tare) weight (of_tons task.allowed_gross_weight_tons))
          _ _ h1 in
      let (same, written, good) =
        commits-eq-ok (gross_written env id task kind c op remark db) (with_gross env.now c task) r
          db' h2 in
      (tare, c, or_raise-eq-ok task.tare_weight_tons invalid_state tare te, ce, same, written, good)

  pub record_gross-eq-ok :
      (input : GrossWeightInput)
      → record_gross env id input op db ≡ ok (r, db')
      → (task : WeighingTask) × IsActive id db task
        × (task.status ≡ WeighingStatus.wait_gross)
        × (task.weight_result ≡ WeightResult.pending)
        × (has_gross_record id db ≡ false)
        × (record_gross_like env id task WeightType.gross input.weight_tons op input.remark db
            ≡ ok (r, db'))
  unfolding record_gross
  record_gross-eq-ok input h =
      let (task, te, h1) = >>=-eq-ok (get_task_for_update id db) _ _ h in
      let (st, h2) = raise_if-eq-ok (not (task.status == WeighingStatus.wait_gross)) _ _ _ h1 in
      let (fresh, h3) =
        raise_if-eq-ok (not (task.weight_result == WeightResult.pending) || has_gross_record id db)
          _ _ _ h2 in
      (task, get_task_for_update-eq-ok id db task te, ground arith, ground arith, ground arith, h3)

  pub record_reweigh-eq-ok :
      (input : ReweighInput)
      → record_reweigh env id input op db ≡ ok (r, db')
      → (task : WeighingTask) × IsActive id db task
        × (task.status ≡ WeighingStatus.wait_gross)
        × (task.weight_result ≡ WeightResult.overweight)
        × (is_blank input.remark ≡ false)
        × (record_gross_like env id task WeightType.reweigh input.weight_tons op
              (some input.remark)
              db
            ≡ ok (r, db'))
  unfolding record_reweigh
  record_reweigh-eq-ok input h =
      let (task, te, h1) = >>=-eq-ok (get_task_for_update id db) _ _ h in
      let (st, h2) = raise_if-eq-ok (not (task.status == WeighingStatus.wait_gross)) _ _ _ h1 in
      let (over, h3) =
        raise_if-eq-ok (not (task.weight_result == WeightResult.overweight)) _ _ _ h2 in
      let (said, h4) = raise_if-eq-ok (is_blank input.remark) _ _ _ h3 in
      (task, get_task_for_update-eq-ok id db task te, ground arith, ground arith, said, h4)
