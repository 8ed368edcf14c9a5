-- ===== src/Billing/Fees.antt =====
-- `ensure_record_for_completed_task` of backend/app/services/billing_service.py.
use timber_ops.Prelude.{
  ℕ, Bool, not, ◌&&◌, ◌||◌, Option, none, some, List, [], ◌∷◌, ◌==◌, nat_eq, ltb, leb, first,
  where_, lookup, insert, if◌then◌else◌,
}
use timber_ops.Domain.Enums.{
  VehicleType, vehicle_type_eq, PaymentStatus, WeighingStatus, weighing_status_eq,
}
use timber_ops.Domain.Errors.{Result, ok, business_rule, ◌>>=◌, ◌>>◌, raise_if, or_raise}
use timber_ops.Store.Rows.{Uuid, Time, WeighingTask, BillingRule, BillingRecord}
use timber_ops.Store.Db.{Db, Env}
use timber_ops.Store.Session.{flush}

-- The fee record of a task.
abbrev pub billing_of : Uuid → Db → Option (Uuid × BillingRecord)
billing_of task_id db = first (λ r. r.1.weighing_task_id == task_id) db.billing_records

-- The rules that the query keeps: of the vehicle's type, and effective by then.
abbrev pub applies : VehicleType → Time → Uuid × BillingRule → Bool
applies vehicle_type at (_, r) = r.vehicle_type == vehicle_type && leb r.effective_time at

-- `ORDER BY effective_time DESC, created_at DESC`: does the first stand before the second?
abbrev pub newer : BillingRule → BillingRule → Bool
newer a b =
    ltb b.effective_time a.effective_time
    || (a.effective_time == b.effective_time && ltb b.created_at a.created_at)

-- `LIMIT 1` of the rules in that order.
unfoldable pub newest : List (Uuid × BillingRule) → Option (Uuid × BillingRule)
newest [] = none
newest (x ∷ xs) = elim (newest xs) [
  | none ↦ some x
  | some y ↦ if newer y.1 x.1 then some y else some x
]

unfoldable pub effective_rule : VehicleType → Time → Db → Option (Uuid × BillingRule)
effective_rule vehicle_type at db = newest (where_ (applies vehicle_type at) db.billing_rules)

-- `completed_at or task.completed_at or utc_now()`
abbrev pub effective_at : Env → Option Time → Option Time → Time
effective_at env (some t) _ = t
effective_at env none (some t) = t
effective_at env none none = env.now

-- The snapshot of a rule's fee.
abbrev pub new_fee : Env → Uuid → Uuid → VehicleType → BillingRule → BillingRecord
new_fee env task_id vehicle_id vehicle_type rule = record {
  weighing_task_id = task_id;
  vehicle_id = vehicle_id;
  vehicle_type_snapshot = vehicle_type;
  fee_amount = rule.fee_amount;
  payment_status = PaymentStatus.unpaid;
  created_at = env.now;
}

-- The vehicle, its type, and the rule for it; a fee record and a flush.
unfoldable pub create_record :
    Env → ℕ → Uuid → WeighingTask → Option Time → Db → Result ((Uuid × BillingRecord) × Db)
create_record env draw task_id task completed_at db = do
  vehicle ← or_raise (lookup task.vehicle_id db.vehicles) business_rule
  vehicle_type ← or_raise vehicle.vehicle_type business_rule
  rule ←
      or_raise (effective_rule vehicle_type (effective_at env completed_at task.completed_at) db)
        business_rule
  let row = new_fee env task_id task.vehicle_id vehicle_type rule.1
  db' ← flush (record db { billing_records = insert (env.uuid draw) row db.billing_records })
  ok ((env.uuid draw, row), db')

abbrev pub existing_or_created :
    Env
    → ℕ
    → Uuid
    → WeighingTask
    → Option Time
    → Db
    → Option (Uuid × BillingRecord)
    → Result ((Uuid × BillingRecord) × Db)
existing_or_created env draw task_id task completed_at db (some existing) = ok (existing, db)
existing_or_created env draw task_id task completed_at db none =
    create_record env draw task_id task completed_at db

-- At most one record for a task: an existing one is returned.
unfoldable pub ensure_record_for_completed_task :
    Env → ℕ → Uuid → WeighingTask → Option Time → Db → Result ((Uuid × BillingRecord) × Db)
ensure_record_for_completed_task env draw task_id task completed_at db = do
  raise_if (not (task.status == WeighingStatus.completed)) business_rule
  existing_or_created env draw task_id task completed_at db (billing_of task_id db)
