-- ===== src/System/Execution/TaskChanges.antt =====
-- The calls that create, move, complete, delete and cancel a task, as changes.
use timber_ops.Prelude.{true, ◌≡◌, ◌≢◌, refl, inl, inr, Option, some, arith}
use timber_ops.Domain.Enums.{WeighingStatus}
use timber_ops.Domain.Errors.{ok}
use timber_ops.Store.Rows.{Uuid, WeighingTask}
use timber_ops.Store.Db.{Db, Env}
use timber_ops.Billing.Effects.{ensure_record-eq-ok}
use timber_ops.Weighing.Inputs.{WeighingTaskCreate, CancelWeighingTaskInput, DeleteEntityInput}
use timber_ops.Weighing.Tasks.{save_task}
use timber_ops.Weighing.Readings.{with_status, prepare_for_gross}
use timber_ops.Weighing.Lifecycle.{
  new_task, create_task, complete_task, delete_task, cancel_task, with_completion, with_deletion,
  is_deletable,
}
use timber_ops.Weighing.Effects.Active.{IsActive}
use timber_ops.Weighing.Effects.LifecycleCalls.{
  create_task-eq-ok, complete_task-eq-ok, delete_task-eq-ok, cancel_task-eq-ok,
  prepare_for_gross-eq-ok,
}
use timber_ops.System.Moves.{Move, prepare, complete, cancel, delete}
use timber_ops.System.Changes.{
  Change, IsMoved, unchanged, task_created, task_moved, task_completed, there, billed, same, more,
}

not_completed_of_deletable :
    (t : WeighingTask) → is_deletable t.status ≡ true → t.status ≢ WeighingStatus.completed
not_completed_of_deletable t d e = ground arith

module _ (env : Env) (id : Uuid) (op : Option Uuid) (db db' : Db) where
  moved : (t t' : WeighingTask) → IsActive id db t → Move env.now t t' → IsMoved env id db t t'
  moved t t' a m = record { found = a.found; live = a.kept; move = m }

  pub create_task-Change :
      (input : WeighingTaskCreate) (r : Uuid × WeighingTask)
      → create_task env input op db ≡ ok (r, db')
      → Change env db db'
  create_task-Change input r h =
      let (v, a, _, _, _, _, _, _, written, _) = create_task-eq-ok env id op db db' input r h in
      task_created (new_task env input v a op) _ _
        (record {
          waits = refl;
          pending = refl;
          no_tare = refl;
          no_gross = refl;
          no_net = refl;
          not_completed = refl;
          zero_excess = refl;
          first_version = refl;
        })
        written

  pub prepare_for_gross-Change :
      (r : WeighingTask) → prepare_for_gross env id db ≡ ok (r, db') → Change env db db'
  prepare_for_gross-Change r h =
      let (t, active, how) = prepare_for_gross-eq-ok env id op db db' r h in
      elim how [
        | inl (_, _, nothing) ↦ unchanged nothing
        | inr (tared, _, written, _) ↦
            let t' = with_status WeighingStatus.wait_gross t in
            task_moved id t t' _ (moved t t' active (prepare tared refl)) (λ e. cc) (same refl)
              written
      ]

  pub delete_task-Change :
      (input : DeleteEntityInput) → delete_task env id input op db ≡ ok db' → Change env db db'
  delete_task-Change input h =
      let (t, active, may, written, _) = delete_task-eq-ok env id op db db' input h in
      let t' = with_deletion env.now op input t in
      task_moved id t t' _ (moved t t' active (delete op input may refl))
        (not_completed_of_deletable t may) (more _ _ refl) written

  pub cancel_task-Change :
      (input : CancelWeighingTaskInput) (r : WeighingTask)
      → cancel_task env id input op db ≡ ok (r, db')
      → Change env db db'
  cancel_task-Change input r h =
      let (t, active, may, _, written, _) = cancel_task-eq-ok env id op db db' input r h in
      let t' = with_status WeighingStatus.cancelled t in
      task_moved id t t' _ (moved t t' active (cancel may refl)) (λ e. cc) (more _ _ refl) written

  pub complete_task-Change :
      (r : WeighingTask) → complete_task env id op db ≡ ok (r, db') → Change env db db'
  complete_task-Change r h =
      let (t, (fee, mid), active, normal, weighed, be, _, written, _) =
        complete_task-eq-ok env id op db db' r h in
      let t' = with_completion env.now t in
      let (_, how) =
        ensure_record-eq-ok env 0 id t' (some env.now) (save_task env id t' db) fee mid be in
      let m = moved t t' active (complete weighed normal refl) in
      elim how [
        | inl (found, kept) ↦
            task_completed id t _ _ _ m (there fee found refl) (rw kept at written)
        | inr (free, made) ↦
            task_completed id t _ _ _ m
              (billed fee.1 free (rw made.made refl) (rw made.made refl) (rw made.made refl) refl)
              (rw made.written at written)
      ]
