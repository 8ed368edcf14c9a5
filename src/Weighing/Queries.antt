-- ===== src/Weighing/Queries.antt =====
-- `get_task`, `list_tasks` and `list_records` of WeighingService.
use timber_ops.Prelude.{
  Bool, true, false, ◌&&◌, ◌||◌, not, ◌==◌, nat_eq, ltb, leb, is_none, Option, some, none, List,
  where_, lookup,
}
use timber_ops.Prelude.Sorting.{order_by}
use timber_ops.Domain.Enums.{
  CargoType, cargo_type_eq, WeighingStatus, weighing_status_eq, PaymentStatus, payment_status_eq,
}
use timber_ops.Domain.Errors.{Result, ok, not_found, ◌>>=◌, ◌>>◌, raise_if, or_raise}
use timber_ops.Store.Rows.{Uuid, WeighingTask, WeighingRecord}
use timber_ops.Store.Db.{Db}
use timber_ops.Billing.Fees.{billing_of}
use timber_ops.Weighing.Tasks.{readings}

unfoldable get_task : Uuid → Db → Result WeighingTask
get_task task_id db = do
  task ← or_raise (lookup task_id db.tasks) not_found
  raise_if (not (is_none task.deleted_at)) not_found
  ok task

-- The filters of `list_tasks`; one that is `none` lets every task pass.
record TaskFilter : Type 0 where
  pub cargo_type : Option CargoType
  pub status : Option WeighingStatus
  pub vehicle_id : Option Uuid
  pub payment_status : Option PaymentStatus

abbrev passes {ℓ} : {A : Type ℓ} → Option A → (A → Bool) → Bool
passes none test = true
passes (some a) test = test a

-- The inner join with the fee records, of which a task has one at most.
abbrev is_billed_as : Uuid → Db → PaymentStatus → Bool
is_billed_as task_id db s = elim (billing_of task_id db) [
  | none ↦ false
  | some b ↦ b.1.payment_status == s
]

abbrev is_listed : TaskFilter → Db → Uuid × WeighingTask → Bool
is_listed f db (id, t) =
    is_none t.deleted_at
    && passes f.cargo_type (λ c. t.cargo_type == c)
    && passes f.status (λ s. t.status == s)
    && passes f.vehicle_id (λ v. t.vehicle_id == v)
    && passes f.payment_status (is_billed_as id db)

-- `ORDER BY created_at, id`
abbrev task_le : Uuid × WeighingTask → Uuid × WeighingTask → Bool
task_le (i, a) (j, b) = ltb a.created_at b.created_at || (a.created_at == b.created_at && leb i j)

unfoldable list_tasks : TaskFilter → Db → List (Uuid × WeighingTask)
list_tasks f db = order_by task_le (where_ (is_listed f db) db.tasks)

abbrev pub record_le : Uuid × WeighingRecord → Uuid × WeighingRecord → Bool
record_le (_, a) (_, b) = leb a.sequence_no b.sequence_no

unfoldable pub list_records : Uuid → Db → Result (List (Uuid × WeighingRecord))
unfolding get_task
list_records task_id db = do
  task ← get_task task_id db
  ok (order_by record_le (readings task_id db))
