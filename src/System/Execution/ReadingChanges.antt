-- ===== src/System/Execution/ReadingChanges.antt =====
-- The calls that append a reading, as changes.
use timber_ops.Prelude.{String, ◌≡◌, ◌≢◌, refl, Option, some, arith}
use timber_ops.Domain.Enums.{WeighingStatus, WeightType}
use timber_ops.Domain.Errors.{ok}
use timber_ops.Domain.Decimal.{Decimal}
use timber_ops.Domain.Weighing.{WeightCalculation}
use timber_ops.Domain.Weighing.Outcome.{calculate_weight-IsAssessment}
use timber_ops.Store.Rows.{Uuid, Time, WeighingTask}
use timber_ops.Store.Db.{Db, Env}
use timber_ops.Weighing.Inputs.{TareWeightInput, GrossWeightInput, ReweighInput}
use timber_ops.Weighing.Tasks.{append_record}
use timber_ops.Weighing.Readings.{
  record_tare, record_gross, record_reweigh, record_gross_like, with_tare, with_gross,
}
use timber_ops.Weighing.Effects.Active.{IsActive}
use timber_ops.Weighing.Effects.ReadingCalls.{
  record_tare-eq-ok, record_gross-eq-ok, record_reweigh-eq-ok, record_gross_like-eq-ok,
}
use timber_ops.System.Moves.{Move, tare, gross}
use timber_ops.System.Changes.{Change, IsMoved, task_read}

with_gross-ne-completed :
    (now : Time) (c : WeightCalculation) (t : WeighingTask)
    → (with_gross now c t).status ≢ WeighingStatus.completed
with_gross-ne-completed now c t e = ground arith

module _ (env : Env) (id : Uuid) (op : Option Uuid) (db db' : Db) (r : WeighingTask) where
  moved : (t t' : WeighingTask) → IsActive id db t → Move env.now t t' → IsMoved env id db t t'
  moved t t' a m = record { found = a.found; live = a.kept; move = m }

  pub record_tare-Change :
      (input : TareWeightInput) → record_tare env id input op db ≡ ok (r, db') → Change env db db'
  unfolding append_record
  record_tare-Change input h =
      let (t, w, active, waits, we, same, written, good) =
        record_tare-eq-ok env id op db r db' input h in
      let t' = with_tare env.now w t in
      task_read id t t' _ _ _ (moved t t' active (tare w waits refl)) (λ e. cc)
        (record { of_task = refl; numbered = refl }) written

  gross_like-Change :
      (t : WeighingTask) (kind : WeightType) (weight : Decimal) (remark : Option String)
      → IsActive id db t
      → t.status ≡ WeighingStatus.wait_gross
      → record_gross_like env id t kind weight op remark db ≡ ok (r, db')
      → Change env db db'
  unfolding append_record
  gross_like-Change t kind weight remark active waits h =
      let (tw, c, te, ce, same, written, good) =
        record_gross_like-eq-ok env id op db r db' t kind weight remark h in
      let t' = with_gross env.now c t in
      let assessed = calculate_weight-IsAssessment tw t.allowed_gross_weight_tons weight c ce in
      task_read id t t' _ _ _ (moved t t' active (gross tw c waits te assessed refl))
        (with_gross-ne-completed env.now c t) (record { of_task = refl; numbered = refl }) written

  pub record_gross-Change :
      (input : GrossWeightInput) → record_gross env id input op db ≡ ok (r, db') → Change env db db'
  record_gross-Change input h =
      let (t, active, waits, _, _, h') = record_gross-eq-ok env id op db r db' input h in
      gross_like-Change t WeightType.gross input.weight_tons input.remark active waits h'

  pub record_reweigh-Change :
      (input : ReweighInput) → record_reweigh env id input op db ≡ ok (r, db') → Change env db db'
  record_reweigh-Change input h =
      let (t, active, waits, _, _, h') = record_reweigh-eq-ok env id op db r db' input h in
      gross_like-Change t WeightType.reweigh input.weight_tons (some input.remark) active waits h'
