-- ===== src/Store/Constraints.antt =====
-- The constraints that backend/app/models declare, which the database checks when a session is
-- flushed: CHECK, UNIQUE, foreign and primary keys, and the range of the numeric columns.
use timber_ops.Prelude.{
  ◌^◌, Bool, true, ◌&&◌, not, Option, none, some, ltb, is_none, ◌==◌, nat_eq, string_eq, all,
  distinct, Table, lookup, has_unique_keys,
}
use timber_ops.Prelude.Int.{ℤ, pos, ltb_ℤ, leb_ℤ}
use timber_ops.Domain.Text.{is_trimmed_empty}
use timber_ops.Domain.Enums.{vehicle_type_eq}
use timber_ops.Domain.Decimal.{Tons, magnitude}
use timber_ops.Store.Rows.{
  Uuid, Vehicle, WeighingTask, WeighingRecord, BillingRule, BillingRecord, WeighingReversal,
}
use timber_ops.Store.Db.{Db}

-- A CHECK constraint holds of a row also where it is NULL.
abbrev holds : Option Tons → (Tons → Bool) → Bool
holds none test = true
holds (some t) test = test t

abbrev is_positive : Tons → Bool
is_positive = ltb_ℤ (pos 0)

-- `REFERENCES table`, of a column that may be NULL
abbrev references {ℓ} : {V : Type ℓ} → Table V → Option Uuid → Bool
references t none = true
references t (some k) = not (is_none (lookup k t))

-- NUMERIC(10, 3) and NUMERIC(10, 2) have ten digits.
abbrev pub fits_column : ℤ → Bool
fits_column t = ltb (magnitude t) (10 ^ 10)

unfoldable pub vehicle_check : Vehicle → Bool
vehicle_check v = is_positive v.allowed_gross_weight_tons

abbrev gross_above_tare : Option Tons → Option Tons → Bool
gross_above_tare gross tare = holds gross (λ g. holds tare (λ t. ltb_ℤ t g))

unfoldable pub task_check : WeighingTask → Bool
task_check t =
    is_positive t.allowed_gross_weight_tons
    && holds t.tare_weight_tons is_positive
    && holds t.gross_weight_tons is_positive
    && holds t.net_weight_tons is_positive
    && leb_ℤ (pos 0) t.overweight_tons
    && gross_above_tare t.gross_weight_tons t.tare_weight_tons

unfoldable pub record_check : WeighingRecord → Bool
record_check r = is_positive r.weight_tons && ltb 0 r.sequence_no

rule_check : BillingRule → Bool
rule_check r = leb_ℤ (pos 0) r.fee_amount

billing_check : BillingRecord → Bool
billing_check b = leb_ℤ (pos 0) b.fee_amount

reversal_check : WeighingReversal → Bool
reversal_check r = not (is_trimmed_empty r.reason)

unfoldable pub vehicles_ok : Db → Bool
unfolding vehicle_check
vehicles_ok db =
    has_unique_keys db.vehicles
    && all (λ r. vehicle_check r.1) db.vehicles
    && distinct (λ a b. a.1.plate_number == b.1.plate_number) db.vehicles

unfoldable pub customers_ok : Db → Bool
customers_ok db = has_unique_keys db.customers

users_ok : Db → Bool
users_ok db = has_unique_keys db.users && distinct (λ a b. a.1.username == b.1.username) db.users

abbrev pub task_references : Db → WeighingTask → Bool
task_references db t =
    references db.vehicles (some t.vehicle_id)
    && references db.customers t.customer_id
    && references db.users t.created_by

unfoldable pub tasks_ok : Db → Bool
unfolding task_check
tasks_ok db =
    has_unique_keys db.tasks
    && all (λ r. task_check r.1 && task_references db r.1) db.tasks
    && distinct (λ a b. a.1.task_no == b.1.task_no) db.tasks

abbrev pub same_place : Uuid × WeighingRecord → Uuid × WeighingRecord → Bool
same_place (_, a) (_, b) =
    a.weighing_task_id == b.weighing_task_id && a.sequence_no == b.sequence_no

unfoldable pub records_ok : Db → Bool
unfolding record_check
records_ok db =
    has_unique_keys db.records
    && all (λ r. record_check r.1 && references db.tasks (some r.1.weighing_task_id)) db.records
    && distinct same_place db.records

abbrev same_start : Uuid × BillingRule → Uuid × BillingRule → Bool
same_start (_, a) (_, b) = a.vehicle_type == b.vehicle_type && a.effective_time == b.effective_time

rules_ok : Db → Bool
unfolding rule_check
rules_ok db =
    has_unique_keys db.billing_rules
    && all (λ r. rule_check r.1) db.billing_rules
    && distinct same_start db.billing_rules

unfoldable pub billing_ok : Db → Bool
unfolding billing_check
billing_ok db =
    has_unique_keys db.billing_records
    && all
        (λ r.
          billing_check r.1
          && references db.tasks (some r.1.weighing_task_id)
          && references db.vehicles (some r.1.vehicle_id))
        db.billing_records
    && distinct (λ a b. a.1.weighing_task_id == b.1.weighing_task_id) db.billing_records

unfoldable pub reversals_ok : Db → Bool
unfolding reversal_check is_trimmed_empty
reversals_ok db =
    has_unique_keys db.reversals
    && all
        (λ r.
          reversal_check r.1
          && references db.tasks (some r.1.original_task_id)
          && references db.users r.1.created_by
          && references db.billing_records r.1.billing_record_id)
        db.reversals
    && distinct (λ a b. a.1.original_task_id == b.1.original_task_id) db.reversals

unfoldable pub satisfies : Db → Bool
unfolding vehicles_ok customers_ok users_ok tasks_ok records_ok rules_ok billing_ok reversals_ok
satisfies db =
    vehicles_ok db
    && customers_ok db
    && users_ok db
    && tasks_ok db
    && records_ok db
    && rules_ok db
    && billing_ok db
    && reversals_ok db
    && has_unique_keys db.audit_logs

abbrev task_in_range : WeighingTask → Bool
task_in_range t =
    holds t.tare_weight_tons fits_column
    && holds t.gross_weight_tons fits_column
    && holds t.net_weight_tons fits_column
    && fits_column t.allowed_gross_weight_tons
    && fits_column t.overweight_tons

abbrev pub reversal_in_range : WeighingReversal → Bool
reversal_in_range r = holds r.billing_fee_amount_snapshot fits_column

unfoldable pub in_range : Db → Bool
in_range db =
    all (λ r. fits_column r.1.allowed_gross_weight_tons) db.vehicles
    && all (λ r. task_in_range r.1) db.tasks
    && all (λ r. fits_column r.1.weight_tons) db.records
    && all (λ r. fits_column r.1.fee_amount) db.billing_rules
    && all (λ r. fits_column r.1.fee_amount) db.billing_records
    && all (λ r. reversal_in_range r.1) db.reversals
