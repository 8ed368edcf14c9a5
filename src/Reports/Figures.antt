-- ===== src/Reports/Figures.antt =====
-- What the dashboard and the reports count and add up: tasks that are not deleted and not reversed
-- (backend/app/domain/weighing_validity.py), within an interval of time.
use timber_ops.Prelude.{
  ℕ, Bool, false, not, ◌&&◌, ◌==◌, nat_eq, ltb, leb, is_none, Option, none, some, List, [], ◌∷◌,
  length, where_, lookup, any,
}
use timber_ops.Prelude.Int.{pos, ◌+ℤ◌}
use timber_ops.Domain.Enums.{PaymentStatus, payment_status_eq, WeighingStatus, weighing_status_eq}
use timber_ops.Domain.Decimal.{Tons, Money}
use timber_ops.Store.Rows.{Uuid, Time, WeighingTask, BillingRecord}
use timber_ops.Store.Db.{Db}

-- `task_is_not_reversed`
unfoldable pub task_is_not_reversed : Db → Uuid → Bool
task_is_not_reversed db task_id = not (any (λ r. r.1.original_task_id == task_id) db.reversals)

abbrev pub is_valid : Db → Uuid × WeighingTask → Bool
is_valid db (id, t) = is_none t.deleted_at && task_is_not_reversed db id

-- `start <= column AND column < end`, which a NULL does not pass
abbrev pub in_time : Time → Time → Option Time → Bool
in_time start end_ none = false
in_time start end_ (some at) = leb start at && ltb at end_

abbrev pub is_created_in : Time → Time → Db → Uuid × WeighingTask → Bool
is_created_in start end_ db r = is_valid db r && in_time start end_ (some r.1.created_at)

-- `completed_today` of the dashboard, `completed_period` of the reports
abbrev pub is_completed_in : Time → Time → Db → Uuid × WeighingTask → Bool
is_completed_in start end_ db r =
    is_valid db r && r.1.status == WeighingStatus.completed && in_time start end_ r.1.completed_at

abbrev pub count_of : (Uuid × WeighingTask → Bool) → Db → ℕ
count_of test db = length (where_ test db.tasks)

-- SQL's SUM: a NULL adds nothing, and nothing but NULLs make a NULL.
abbrev pub add_column : Option Tons → Option Tons → Option Tons
add_column none total = total
add_column (some a) none = some a
add_column (some a) (some b) = some (a +ℤ b)

abbrev pub sum_weights : List (Uuid × WeighingTask) → Option Tons
sum_weights [] = none
sum_weights (r ∷ rs) = add_column r.1.net_weight_tons (sum_weights rs)

abbrev pub sum_fees : List (Uuid × BillingRecord) → Option Money
sum_fees [] = none
sum_fees (r ∷ rs) = add_column (some r.1.fee_amount) (sum_fees rs)

-- `_decimal_or`; the sums have the places that they are quantized to.
abbrev pub decimal_or : Option Tons → Tons
decimal_or none = pos 0
decimal_or (some a) = a

-- The join of a fee record with its task.
abbrev pub is_completed_task : Time → Time → Db → Uuid → Option WeighingTask → Bool
is_completed_task start end_ db task_id none = false
is_completed_task start end_ db task_id (some t) = is_completed_in start end_ db (task_id, t)

abbrev pub is_income_in : Time → Time → Db → Uuid × BillingRecord → Bool
is_income_in start end_ db (_, b) =
    is_completed_task start end_ db b.weighing_task_id (lookup b.weighing_task_id db.tasks)
    && not (b.payment_status == PaymentStatus.waived)

abbrev pub net_weight_in : Time → Time → Db → Tons
net_weight_in start end_ db =
    decimal_or (sum_weights (where_ (is_completed_in start end_ db) db.tasks))

abbrev pub income_in : Time → Time → Db → Money
income_in start end_ db =
    decimal_or (sum_fees (where_ (is_income_in start end_ db) db.billing_records))
