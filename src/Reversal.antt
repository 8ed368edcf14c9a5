-- ===== src/Reversal.antt =====
-- `WeighingReversalService.reverse` of backend/app/services/weighing_reversal_service.py.
pub mod Effects
pub mod Once
pub mod Race
pub mod PaymentRace
use timber_ops.Prelude.{
  String, Bool, true, false, not, Option, none, some, [], ◌∷◌, ◌==◌, nat_eq, insert,
}
use timber_ops.Domain.Enums.{
  PaymentStatus, payment_status_eq, payment_status_value, WeighingStatus, weighing_status_eq,
  weighing_status_value,
}
use timber_ops.Domain.Errors.{
  Result, ok, err, invalid_state, conflict, integrity_error, paid_weighing_requires_refund, ◌>>=◌,
  ◌>>◌, raise_if, or_raise,
}
use timber_ops.Store.Rows.{
  Uuid, WeighingTask, BillingRecord, WeighingReversal, JsonValue, JsonObject,
}
use timber_ops.Store.Db.{Db, Env}
use timber_ops.Store.Session.{flush}
use timber_ops.Billing.Fees.{billing_of}
use timber_ops.Billing.Payments.{reversal_of}
use timber_ops.Weighing.Tasks.{get_task_for_update, add_audit}

pub record WeighingReversalCreate : Type 0 where
  pub reason : String

abbrev pub is_paid : Option (Uuid × BillingRecord) → Bool
is_paid none = false
is_paid (some (_, b)) = b.payment_status == PaymentStatus.paid

-- The reversal of a task, with what its fee record says at that moment.
abbrev pub new_reversal :
    Env → Uuid → WeighingReversalCreate → Uuid → Option (Uuid × BillingRecord) → WeighingReversal
new_reversal env task_id input operator_id billing = record {
  original_task_id = task_id;
  reason = input.reason;
  created_by = some operator_id;
  billing_record_id = elim billing [ none ↦ none | some b ↦ some b.0 ];
  billing_payment_status_snapshot = elim billing [ none ↦ none | some b ↦ some b.1.payment_status ];
  billing_fee_amount_snapshot = elim billing [ none ↦ none | some b ↦ some b.1.fee_amount ];
  created_at = env.now;
}

abbrev payment_json : Option (Uuid × BillingRecord) → JsonValue
payment_json none = JsonValue.null
payment_json (some (_, b)) = JsonValue.text (payment_status_value b.payment_status)

abbrev before_json : WeighingTask → JsonObject
before_json task =
    ("reversed", JsonValue.flag false)
    ∷ ("status", JsonValue.text (weighing_status_value task.status))
    ∷ []

abbrev after_json : WeighingTask → Uuid → Option (Uuid × BillingRecord) → JsonObject
after_json task reversal_id billing =
    ("reversed", JsonValue.flag true)
    ∷ ("reversal_id", JsonValue.uuid_text reversal_id)
    ∷ ("status", JsonValue.text (weighing_status_value task.status))
    ∷ ("billing_payment_status", payment_json billing)
    ∷ []

-- `_get_by_task_id(required=True)`
abbrev pub reload : Uuid → Db → Result ((Uuid × WeighingReversal) × Db)
reload task_id db = do r ← or_raise (reversal_of task_id db) conflict; ok (r, db)

-- `except IntegrityError`: after the rollback, the reversal that another session wrote.
abbrev recover : Uuid → Db → Result Db → Result ((Uuid × WeighingReversal) × Db)
recover task_id db (ok db') = reload task_id db'
recover task_id db (err integrity_error) = reload task_id db
recover task_id db (err e) = err e

abbrev pub reversal_inserted : Env → WeighingReversal → Db → Db
reversal_inserted env reversal db = record db {
  reversals = insert (env.uuid 0) reversal db.reversals;
}

abbrev pub reversal_audited :
    Env
    → Uuid
    → WeighingTask
    → WeighingReversalCreate
    → Uuid
    → Option (Uuid × BillingRecord)
    → Db
    → Db
reversal_audited env task_id task input operator_id billing db =
    add_audit env 1 (some operator_id) "WEIGHING_REVERSED" "WeighingTask" task_id
      (some (before_json task)) (some (after_json task (env.uuid 0) billing)) (some input.reason) db

-- The flush and the commit, both inside the `try`.
abbrev pub write_reversal :
    Env
    → Uuid
    → WeighingTask
    → WeighingReversalCreate
    → Uuid
    → Option (Uuid × BillingRecord)
    → Db
    → Result Db
write_reversal env task_id task input operator_id billing db = do
  flushed ← flush (reversal_inserted env (new_reversal env task_id input operator_id billing) db)
  flush (reversal_audited env task_id task input operator_id billing flushed)

abbrev pub existing_or_created :
    Env
    → Uuid
    → WeighingTask
    → WeighingReversalCreate
    → Uuid
    → (Db → Db)
    → Db
    → Option (Uuid × WeighingReversal)
    → Result ((Uuid × WeighingReversal) × Db)
existing_or_created env task_id task input operator_id others db (some existing) = ok (existing, db)
existing_or_created env task_id task input operator_id others db none = do
  raise_if (is_paid (billing_of task_id db)) paid_weighing_requires_refund
  recover task_id (others db)
      (write_reversal env task_id task input operator_id (billing_of task_id db) (others db))

-- `others` is what other sessions commit between the reads and the flush. `reverse` locks the row of
-- the task only.
unfoldable pub reverse :
    Env
    → Uuid
    → WeighingReversalCreate
    → Uuid
    → (Db → Db)
    → Db
    → Result ((Uuid × WeighingReversal) × Db)
reverse env task_id input operator_id others db = do
  task ← get_task_for_update task_id db
  raise_if (not (task.status == WeighingStatus.completed)) invalid_state
  existing_or_created env task_id task input operator_id others db (reversal_of task_id db)
