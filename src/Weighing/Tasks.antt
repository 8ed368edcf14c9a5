-- ===== src/Weighing/Tasks.antt =====
-- The private helpers of WeighingService (backend/app/services/weighing_service.py): the task under
-- lock, its status test, its readings, and what a call adds to the session.
use timber_ops.Prelude.{
  ℕ, ◌+◌, String, Bool, not, Option, some, List, map, is_none, ◌==◌, nat_eq, ltb, length, where_,
  maximum, lookup, insert, update, ◌||◌,
}
use timber_ops.Domain.Enums.{
  WeighingStatus, weighing_status_eq, WeightType, weight_type_eq, WeightSource,
}
use timber_ops.Domain.Errors.{Result, ok, not_found, invalid_state, ◌>>=◌, ◌>>◌, raise_if, or_raise}
use timber_ops.Domain.Decimal.{Tons}
use timber_ops.Store.Rows.{Uuid, WeighingTask, WeighingRecord, JsonObject}
use timber_ops.Store.Db.{Db, Env}

-- `_get_task_for_update`: a task that is deleted is not found.
unfoldable pub get_task_for_update : Uuid → Db → Result WeighingTask
get_task_for_update task_id db = do
  task ← or_raise (lookup task_id db.tasks) not_found
  raise_if (not (is_none task.deleted_at)) not_found
  ok task

-- `_require_status`
abbrev pub require_status : WeighingTask → WeighingStatus → Result (Unit {0})
require_status task expected = raise_if (not (task.status == expected)) invalid_state

-- The readings of one task.
abbrev pub readings : Uuid → Db → List (Uuid × WeighingRecord)
readings task_id db = where_ (λ r. r.1.weighing_task_id == task_id) db.records

abbrev pub sequence : Uuid × WeighingRecord → ℕ
sequence (_, r) = r.sequence_no

-- `coalesce(max(sequence_no), 0) + 1`
unfoldable pub next_sequence : Uuid → Db → ℕ
next_sequence task_id db = maximum (map sequence (readings task_id db)) + 1

-- `_append_record`
unfoldable pub append_record :
    Env → ℕ → Uuid → WeightType → Tons → Option Uuid → Option String → Db → Db
unfolding next_sequence
append_record env draw task_id weight_type weight_tons recorded_by remark db = record db {
  records =
      insert (env.uuid draw)
        (record {
          weighing_task_id = task_id;
          weight_type = weight_type;
          weight_tons = weight_tons;
          sequence_no = next_sequence task_id db;
          recorded_at = env.now;
          recorded_by = recorded_by;
          source = WeightSource.manual;
          remark = remark;
          created_at = env.now;
        })
        db.records;
}

abbrev is_gross : Uuid × WeighingRecord → Bool
is_gross (_, r) = r.weight_type == WeightType.gross || r.weight_type == WeightType.reweigh

-- `_has_gross_record`
unfoldable pub has_gross_record : Uuid → Db → Bool
has_gross_record task_id db = ltb 0 (length (where_ is_gross (readings task_id db)))

-- The task object as an UPDATE writes it, which also sets `updated_at`.
abbrev pub touched : Env → WeighingTask → WeighingTask
touched env task = record task { updated_at = env.now }

-- The task object, changed in the session.
abbrev pub save_task : Env → Uuid → WeighingTask → Db → Db
save_task env task_id task db = record db { tasks = update task_id (touched env task) db.tasks }

-- `session.add(AuditLog(...))`
abbrev pub add_audit :
    Env
    → ℕ
    → Option Uuid
    → String
    → String
    → Uuid
    → Option JsonObject
    → Option JsonObject
    → Option String
    → Db
    → Db
add_audit env draw operator_id action target_type target_id before after reason db = record db {
  audit_logs =
      insert (env.uuid draw)
        (record {
          operator_id = operator_id;
          action = action;
          target_type = target_type;
          target_id = some target_id;
          before_value = before;
          after_value = after;
          reason = reason;
          created_at = env.now;
        })
        db.audit_logs;
}
