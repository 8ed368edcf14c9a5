-- ===== src/Billing/Queries.antt =====
-- `list_records` of BillingService.
use timber_ops.Prelude.{
  ℕ, ◌≡◌, refl, ◌∙◌, inl, inr, String, Bool, true, false, not, ◌&&◌, ◌||◌, ◌==◌, nat_eq, option_eq,
  ltb, leb, is_none, all, Option, some, none, List, [], ◌∷◌, lookup, if◌then◌else◌, Bool-cases,
  arith,
}
use timber_ops.Prelude.Sorting.{order_by, all-order_by}
use timber_ops.Domain.Enums.{VehicleType, PaymentStatus, payment_status_eq}
use timber_ops.Domain.Days.{is_after_end, overflows_by, starts_by, ends_after, local_date}
use timber_ops.Domain.Days.Intervals.{is_within, selected-within}
use timber_ops.Domain.Decimal.{Money}
use timber_ops.Domain.Errors.{Result, ok, business_rule, overflow_error, ◌>>◌, raise_if}
use timber_ops.Store.Rows.{Uuid, Time, WeighingTask, Vehicle, BillingRecord}
use timber_ops.Store.Db.{Db}
use timber_ops.Billing.Payments.{reversal_of}

pub record BillingRecordListItem : Type 0 where
  pub id : Uuid
  pub weighing_task_id : Uuid
  pub vehicle_id : Uuid
  pub vehicle_type_snapshot : VehicleType
  pub fee_amount : Money
  pub payment_status : PaymentStatus
  pub created_at : Time
  pub task_no : String
  pub plate_number : String
  pub customer_id : Option Uuid
  pub customer_name : Option String
  pub completed_at : Option Time
  pub reversed : Bool

pub record BillingFilter : Type 0 where
  pub start_date : Option ℕ
  pub end_date : Option ℕ
  pub vehicle_id : Option Uuid
  pub customer_id : Option Uuid
  pub payment_status : Option PaymentStatus

abbrev customer_passes : Option Uuid → Option Uuid → Bool
customer_passes none c = true
customer_passes (some k) c = c == some k

abbrev is_selected : BillingFilter → BillingRecord → WeighingTask → Bool
is_selected f b t =
    is_none t.deleted_at
    && starts_by f.start_date b.created_at
    && ends_after f.end_date b.created_at
    && elim f.vehicle_id [ none ↦ true | some v ↦ b.vehicle_id == v ]
    && customer_passes f.customer_id t.customer_id
    && elim f.payment_status [ none ↦ true | some s ↦ b.payment_status == s ]

-- The outer join with the customers.
abbrev customer_name_of : Option Uuid → Db → Option String
customer_name_of none db = none
customer_name_of (some k) db = elim (lookup k db.customers) [ none ↦ none | some c ↦ some c.name ]

abbrev item : Db → Uuid × BillingRecord → WeighingTask → Vehicle → BillingRecordListItem
item db (id, b) t v = record {
  id = id;
  weighing_task_id = b.weighing_task_id;
  vehicle_id = b.vehicle_id;
  vehicle_type_snapshot = b.vehicle_type_snapshot;
  fee_amount = b.fee_amount;
  payment_status = b.payment_status;
  created_at = b.created_at;
  task_no = t.task_no;
  plate_number = v.plate_number;
  customer_id = t.customer_id;
  customer_name = customer_name_of t.customer_id db;
  completed_at = t.completed_at;
  reversed = not (is_none (reversal_of b.weighing_task_id db));
}

-- The inner joins with the tasks and the vehicles.
abbrev joined :
    BillingFilter
    → Db
    → Uuid × BillingRecord
    → Option WeighingTask
    → Option Vehicle
    → Option BillingRecordListItem
joined f db row (some t) (some v) = if is_selected f row.1 t then some (item db row t v) else none
joined f db row _ _ = none

abbrev item_of : BillingFilter → Db → Uuid × BillingRecord → Option BillingRecordListItem
item_of f db row =
    joined f db row (lookup row.1.weighing_task_id db.tasks) (lookup row.1.vehicle_id db.vehicles)

abbrev consed :
    Option BillingRecordListItem → List BillingRecordListItem → List BillingRecordListItem
consed none xs = xs
consed (some x) xs = x ∷ xs

abbrev items : BillingFilter → Db → List (Uuid × BillingRecord) → List BillingRecordListItem
items f db [] = []
items f db (row ∷ rows) = consed (item_of f db row) (items f db rows)

-- `ORDER BY created_at DESC, id`
abbrev item_le : BillingRecordListItem → BillingRecordListItem → Bool
item_le a b = ltb b.created_at a.created_at || (a.created_at == b.created_at && leb a.id b.id)

unfoldable pub list_records : BillingFilter → Db → Result (List BillingRecordListItem)
list_records f db = do
  raise_if (is_after_end f.start_date f.end_date) business_rule
  raise_if (overflows_by f.start_date f.end_date) overflow_error
  ok (order_by item_le (items f db db.billing_records))

abbrev pub fits_dates : BillingFilter → BillingRecordListItem → Bool
fits_dates f x = is_within f.start_date f.end_date (local_date x.created_at)

joined-within :
    (f : BillingFilter) (db : Db) (row : Uuid × BillingRecord) (t : Option WeighingTask)
    (v : Option Vehicle) (rest : List BillingRecordListItem)
    → all (fits_dates f) rest ≡ true
    → all (fits_dates f) (consed (joined f db row t v) rest) ≡ true
joined-within f db row none v rest h = h
joined-within f db row (some t) none rest h = h
joined-within f db row (some t) (some v) rest h = elim (Bool-cases (is_selected f row.1 t)) [
  | inl kept ↦
      let dated =
        selected-within f.start_date f.end_date row.1.created_at (ground arith) (ground arith) in
      rw kept (ground (arith, dated))
  | inr dropped ↦ rw dropped h
]

items-within :
    (f : BillingFilter) (db : Db) (rows : List (Uuid × BillingRecord))
    → all (fits_dates f) (items f db rows) ≡ true
items-within f db [] = refl
items-within f db (row ∷ rows) =
    joined-within f db row (lookup row.1.weighing_task_id db.tasks)
      (lookup row.1.vehicle_id db.vehicles) (items f db rows) (items-within f db rows)

-- Every fee that `list_records` returns was created on a date, by a clock at UTC+8, that lies
-- between the start date and the end date of the filter, both included, where they are given; and
-- it raises nothing if they are in order, the start date is not the first date and the end date is
-- not the last one.
pub list_records_dates :
    (f : BillingFilter) (db : Db)
    → is_after_end f.start_date f.end_date ≡ false
    → overflows_by f.start_date f.end_date ≡ false
    → (xs : List BillingRecordListItem) × (list_records f db ≡ ok xs)
      × (all (fits_dates f) xs ≡ true)
unfolding list_records
list_records_dates f db h i =
    let xs = order_by item_le (items f db db.billing_records) in
    (
      xs,
      rw (h, i) refl,
      all-order_by item_le (fits_dates f) (items f db db.billing_records)
          ∙ items-within f db db.billing_records,
    )
