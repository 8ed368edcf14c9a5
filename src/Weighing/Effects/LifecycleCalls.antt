-- ===== src/Weighing/Effects/LifecycleCalls.antt =====
-- What the calls that create, move, complete, delete and cancel a task have tested and written when
-- they return.
use timber_ops.Prelude.{
  ◌≡◌, ◌⊎◌, inl, inr, Bool-cases, not, ◌==◌, true, false, Option, none, some, lookup, is_none,
  arith,
}
use timber_ops.Domain.Enums.{
  WeighingStatus, weighing_status_eq, WeightResult, weight_result_eq, WeighingDirection,
  weighing_direction_eq,
}
use timber_ops.Domain.Errors.{
  ok, not_found, invalid_state, ◌>>=◌, ◌>>◌, raise_if, or_raise, or_raise-eq-ok, >>=-eq-ok,
  raise_if-eq-ok,
}
use timber_ops.Domain.Decimal.{Tons, quantize_tons, of_tons}
use timber_ops.Store.Rows.{Uuid, Vehicle, WeighingTask, BillingRecord}
use timber_ops.Store.Db.{Db, Env}
use timber_ops.Store.Session.{commit, IsCommitted, commits-eq-ok, commit-eq-ok}
use timber_ops.Billing.Fees.{ensure_record_for_completed_task}
use timber_ops.Weighing.Inputs.{WeighingTaskCreate, CancelWeighingTaskInput, DeleteEntityInput}
use timber_ops.Weighing.Tasks.{get_task_for_update, save_task}
use timber_ops.Weighing.Readings.{with_status, prepare_for_gross}
use timber_ops.Weighing.Lifecycle.{
  require_customer, new_task, create_written, create_task, with_completion, complete_audited,
  complete_task, is_deletable, delete_written, delete_task, is_cancellable, cancel_written,
  cancel_task,
}
use timber_ops.Weighing.Effects.Active.{IsActive, get_task_for_update-eq-ok}

module _ (env : Env) (id : Uuid) (op : Option Uuid) (db db' : Db) where
  pub create_task-eq-ok :
      (input : WeighingTaskCreate) (r : Uuid × WeighingTask)
      → create_task env input op db ≡ ok (r, db')
      → (vehicle : Vehicle) × (allowed : Tons) × (lookup input.vehicle_id db.vehicles
          ≡ some vehicle)
        × (vehicle.deleted_at ≡ none)
        × (is_none vehicle.vehicle_type ≡ false)
        × (input.weighing_direction ≡ WeighingDirection.outbound)
        × (quantize_tons (of_tons vehicle.allowed_gross_weight_tons) ≡ ok allowed)
        × (r ≡ (env.uuid 0, new_task env input vehicle allowed op))
        × (db' ≡ create_written env input vehicle allowed op db)
        × IsCommitted db'
  unfolding create_task
  create_task-eq-ok input r h =
      let (v, ve, h1) =
        >>=-eq-ok (or_raise (lookup input.vehicle_id db.vehicles) not_found) _ _ h in
      let (kept, h2) = raise_if-eq-ok (not (is_none v.deleted_at)) _ _ _ h1 in
      let (typed, h3) = raise_if-eq-ok (is_none v.vehicle_type) _ _ _ h2 in
      let (_, _, h4) = >>=-eq-ok (require_customer input.customer_id db) _ _ h3 in
      let (out, h5) =
        raise_if-eq-ok (not (input.weighing_direction == WeighingDirection.outbound)) _ _ _ h4 in
      let (a, ae, h6) = >>=-eq-ok (quantize_tons (of_tons v.allowed_gross_weight_tons)) _ _ h5 in
      let (same, written, good) =
        commits-eq-ok (create_written env input v a op db) (env.uuid 0, new_task env input v a op) r
          db' h6 in
      (
        v,
        a,
        or_raise-eq-ok (lookup input.vehicle_id db.vehicles) not_found v ve,
        ground arith,
        typed,
        ground arith,
        ae,
        same,
        written,
        good,
      )

  pub delete_task-eq-ok :
      (input : DeleteEntityInput)
      → delete_task env id input op db ≡ ok db'
      → (task : WeighingTask) × IsActive id db task
        × (is_deletable task.status ≡ true)
        × (db' ≡ delete_written env id input op task db)
        × IsCommitted db'
  unfolding delete_task
  delete_task-eq-ok input h =
      let (task, te, h1) = >>=-eq-ok (get_task_for_update id db) _ _ h in
      let (st, h2) = raise_if-eq-ok (not (is_deletable task.status)) _ _ _ h1 in
      let (written, good) = commit-eq-ok (delete_written env id input op task db) db' h2 in
      (task, get_task_for_update-eq-ok id db task te, ground arith, written, good)

  pub cancel_task-eq-ok :
      (input : CancelWeighingTaskInput) (r : WeighingTask)
      → cancel_task env id input op db ≡ ok (r, db')
      → (task : WeighingTask) × IsActive id db task
        × (is_cancellable task.status ≡ true)
        × (r ≡ with_status WeighingStatus.cancelled task)
        × (db' ≡ cancel_written env id input op task db)
        × IsCommitted db'
  unfolding cancel_task
  cancel_task-eq-ok input r h =
      let (task, te, h1) = >>=-eq-ok (get_task_for_update id db) _ _ h in
      let (st, h2) = raise_if-eq-ok (not (is_cancellable task.status)) _ _ _ h1 in
      let (same, written, good) =
        commits-eq-ok (cancel_written env id input op task db)
          (with_status WeighingStatus.cancelled task) r db' h2 in
      (task, get_task_for_update-eq-ok id db task te, ground arith, same, written, good)

  pub prepare_for_gross-eq-ok :
      (r : WeighingTask)
      → prepare_for_gross env id db ≡ ok (r, db')
      → (task : WeighingTask) × IsActive id db task
        × ((task.status ≡ WeighingStatus.wait_gross) × (r ≡ task) × (db' ≡ db)
            ⊎ (task.status ≡ WeighingStatus.tare_completed)
              × (r ≡ with_status WeighingStatus.wait_gross task)
              × (db' ≡ save_task env id (with_status WeighingStatus.wait_gross task) db)
              × IsCommitted db')
  unfolding prepare_for_gross
  prepare_for_gross-eq-ok r h =
      let (task, te, h1) = >>=-eq-ok (get_task_for_update id db) _ _ h in
      (
        task,
        get_task_for_update-eq-ok id db task te,
        elim (Bool-cases (task.status == WeighingStatus.wait_gross)) [
          | inl there ↦ inl (ground arith)
          | inr moving ↦
              let h2 : (raise_if (not (task.status == WeighingStatus.tare_completed)) invalid_state
                    >> ◌>>=◌ {B = WeighingTask × Db}
                        (commit (save_task env id (with_status WeighingStatus.wait_gross task) db))
                        (λ d. ok (with_status WeighingStatus.wait_gross task, d)))
                  ≡ ok (r, db') =
                rw moving at h1 in
              let (st, h3) =
                raise_if-eq-ok (not (task.status == WeighingStatus.tare_completed)) _ _ _ h2 in
              let (same, written, good) =
                commits-eq-ok (save_task env id (with_status WeighingStatus.wait_gross task) db)
                  (with_status WeighingStatus.wait_gross task) r db' h3 in
              inr (ground arith, same, written, good)
        ],
      )

  pub complete_task-eq-ok :
      (r : WeighingTask)
      → complete_task env id op db ≡ ok (r, db')
      → (task : WeighingTask) × (billed : (Uuid × BillingRecord) × Db) × IsActive id db task
        × (task.weight_result ≡ WeightResult.normal)
        × (task.status ≡ WeighingStatus.gross_completed)
        × (ensure_record_for_completed_task env 0 id
              (with_completion env.now task)
              (some env.now)
              (save_task env id (with_completion env.now task) db)
            ≡ ok billed)
        × (r ≡ with_completion env.now task)
        × (db' ≡ complete_audited env id op billed.1)
        × IsCommitted db'
  unfolding complete_task
  complete_task-eq-ok r h =
      let (task, te, h1) = >>=-eq-ok (get_task_for_update id db) _ _ h in
      let (normal, h2) =
        raise_if-eq-ok (not (task.weight_result == WeightResult.normal)) _ _ _ h1 in
      let (st, h3) =
        raise_if-eq-ok (not (task.status == WeighingStatus.gross_completed)) _ _ _ h2 in
      let task' = with_completion env.now task in
      let (billed, be, h4) =
        >>=-eq-ok
          (ensure_record_for_completed_task env 0 id task' (some env.now)
            (save_task env id task' db))
          _ _ h3 in
      let (same, written, good) =
        commits-eq-ok (complete_audited env id op billed.1) task' r db' h4 in
      (
        task,
        billed,
        get_task_for_update-eq-ok id db task te,
        ground arith,
        ground arith,
        be,
        same,
        written,
        good,
      )
