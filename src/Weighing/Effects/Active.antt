-- ===== src/Weighing/Effects/Active.antt =====
-- The task that `_get_task_for_update` returns.
use timber_ops.Prelude.{◌≡◌, none, some, lookup, arith}
use timber_ops.Domain.Enums.{weighing_status_eq, weight_result_eq, weighing_direction_eq}
use timber_ops.Domain.Errors.{ok}
use timber_ops.Store.Rows.{Uuid, WeighingTask}
use timber_ops.Store.Db.{Db}
use timber_ops.Weighing.Tasks.{get_task_for_update}

-- A task that is found under lock stands in the table and is not deleted.
pub record IsActive (task_id : Uuid) (db : Db) (task : WeighingTask) : Type 0 where
  pub found : lookup task_id db.tasks ≡ some task
  pub kept : task.deleted_at ≡ none

pub get_task_for_update-eq-ok :
    (task_id : Uuid) (db : Db) (task : WeighingTask)
    → get_task_for_update task_id db ≡ ok task
    → IsActive task_id db task
unfolding get_task_for_update
get_task_for_update-eq-ok task_id db task h = ground arith
