-- ===== src/Billing/Payments.antt =====
-- `mark_paid` and `waive` of BillingService.
use timber_ops.Prelude.{
  String, not, Option, none, some, [], ◌∷◌, is_none, ◌==◌, nat_eq, first, lookup, update,
  if◌then◌else◌,
}
use timber_ops.Domain.Enums.{PaymentStatus, payment_status_eq, payment_status_value}
use timber_ops.Domain.Errors.{
  Result, ok, not_found, business_rule, reversed_billing_immutable, ◌>>=◌, ◌>>◌, raise_if, or_raise,
}
use timber_ops.Domain.Decimal.{Money}
use timber_ops.Store.Rows.{Uuid, BillingRecord, WeighingReversal, JsonValue, JsonObject}
use timber_ops.Store.Db.{Db, Env}
use timber_ops.Store.Session.{flush}
use timber_ops.Weighing.Tasks.{add_audit}

-- The reversal of a task.
abbrev pub reversal_of : Uuid → Db → Option (Uuid × WeighingReversal)
reversal_of task_id db = first (λ r. r.1.original_task_id == task_id) db.reversals

abbrev payment_json : PaymentStatus → Money → JsonObject
payment_json s fee =
    ("payment_status", JsonValue.text (payment_status_value s))
    ∷ ("fee_amount", JsonValue.decimal_text fee)
    ∷ []

abbrev pub payment_written : Env → Uuid → PaymentStatus → String → Uuid → BillingRecord → Db → Db
payment_written env record_id target action operator_id row db =
    add_audit env 0 (some operator_id) action "BillingRecord" record_id
      (some (payment_json row.payment_status row.fee_amount))
      (some (payment_json target row.fee_amount)) none
      (record db {
        billing_records =
            update record_id (record row { payment_status = target }) db.billing_records;
      })

-- `_transition_payment_status`: nothing happens to a record that is there already.
unfoldable pub transition_payment_status :
    Env → Uuid → PaymentStatus → String → Uuid → Db → Result (BillingRecord × Db)
transition_payment_status env record_id target action operator_id db = do
  row ← or_raise (lookup record_id db.billing_records) not_found
  raise_if (not (is_none (reversal_of row.weighing_task_id db))) reversed_billing_immutable
  if row.payment_status == target then ok (row, db) else do
    raise_if (not (row.payment_status == PaymentStatus.unpaid)) business_rule
    db' ← flush (payment_written env record_id target action operator_id row db)
    ok (record row { payment_status = target }, db')

unfoldable pub mark_paid : Env → Uuid → Uuid → Db → Result (BillingRecord × Db)
unfolding transition_payment_status
mark_paid env record_id operator_id =
    transition_payment_status env record_id PaymentStatus.paid "BILLING_PAID" operator_id

unfoldable pub waive : Env → Uuid → Uuid → Db → Result (BillingRecord × Db)
unfolding transition_payment_status
waive env record_id operator_id =
    transition_payment_status env record_id PaymentStatus.waived "BILLING_WAIVED" operator_id
