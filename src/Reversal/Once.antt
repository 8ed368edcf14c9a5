-- ===== src/Reversal/Once.antt =====
-- A task is reversed at most once: a second reversal, and one that loses a race.
use timber_ops.Prelude.{◌≡◌, sym, subst, String, nat_eq, some, lookup, arith}
use timber_ops.Domain.Enums.{PaymentStatus, payment_status_eq, WeighingStatus, weighing_status_eq}
use timber_ops.Domain.Errors.{ok, err, reversed_billing_immutable}
use timber_ops.Store.Rows.{Uuid, WeighingTask, BillingRecord, WeighingReversal}
use timber_ops.Store.Db.{Db, Env}
use timber_ops.Billing.Payments.{reversal_of, transition_payment_status, mark_paid, waive}
use timber_ops.Weighing.Tasks.{get_task_for_update}
use timber_ops.Weighing.Effects.Active.{IsActive}
use timber_ops.Reversal.{WeighingReversalCreate, reverse}
use timber_ops.Reversal.Effects.{Outcome, existing, created, recovered, reverse-eq-ok}

-- the task of a reversal that stands
existing_again :
    (env : Env) (id : Uuid) (input : WeighingReversalCreate) (op : Uuid) (others : Db → Db)
    (db : Db) (task : WeighingTask) (r : Uuid × WeighingReversal)
    → IsActive id db task
    → task.status ≡ WeighingStatus.completed
    → reversal_of id db ≡ some r
    → reverse env id input op others db ≡ ok (r, db)
unfolding reverse get_task_for_update
existing_again env id input op others db task r a done e = ground (arith, a.found, a.kept)

frozen :
    (env : Env) (k : Uuid) (target : PaymentStatus) (action : String) (op : Uuid)
    (b : BillingRecord) (r : Uuid × WeighingReversal) (db : Db)
    → lookup k db.billing_records ≡ some b
    → reversal_of b.weighing_task_id db ≡ some r
    → transition_payment_status env k target action op db ≡ err reversed_billing_immutable
unfolding transition_payment_status
frozen env k target action op b r db h e = ground arith

module _ (env : Env) (id : Uuid) (input : WeighingReversalCreate) (op : Uuid) (db : Db)
    (r : Uuid × WeighingReversal) (db' : Db) where
  after_reversal :
      reverse env id input op (λ d. d) db ≡ ok (r, db')
      → (task : WeighingTask) × IsActive id db' task
        × (task.status ≡ WeighingStatus.completed)
        × (reversal_of id db' ≡ some r)
  after_reversal h =
      let (task, a, done, way) = reverse-eq-ok env id input op (λ d. d) db r db' h in
      (task, active_after task a way, done, found_after task way)
    where
      active_after :
          (task : WeighingTask)
          → IsActive id db task
          → Outcome env id input op (λ d. d) db r db' task
          → IsActive id db' task
      active_after task a (existing _ e) = rw e a
      active_after task a (created _ _ _ e _) = rw e (record { found = a.found; kept = a.kept })
      active_after task a (recovered _ _ _ e) = rw e a

      found_after :
          (task : WeighingTask)
          → Outcome env id input op (λ d. d) db r db' task
          → reversal_of id db' ≡ some r
      found_after task (existing e f) = rw f e
      found_after task (created _ _ e _ _) = e
      found_after task (recovered _ _ e f) = rw f e

-- Once `reverse` has returned a reversal, a second call on the task, with any reason, by anyone and
-- whatever other sessions commit, returns the same reversal and changes nothing; and `mark_paid`
-- and `waive` refuse every fee record of the task.
pub reverse_once :
    (env env' : Env) (id : Uuid) (input input' : WeighingReversalCreate) (op op' : Uuid)
    (others : Db → Db) (db : Db) (r : Uuid × WeighingReversal) (db' : Db)
    → reverse env id input op (λ d. d) db ≡ ok (r, db')
    → (reverse env' id input' op' others db' ≡ ok (r, db'))
      × ((k : Uuid) (b : BillingRecord)
          → lookup k db'.billing_records ≡ some b
          → b.weighing_task_id ≡ id
          → (mark_paid env' k op' db' ≡ err reversed_billing_immutable)
            × (waive env' k op' db' ≡ err reversed_billing_immutable))
unfolding mark_paid waive
reverse_once env env' id input input' op op' others db r db' h =
    let (task, a, done, found) = after_reversal env id input op db r db' h in
    (
      existing_again env' id input' op' others db' task r a done found,
      λ k b here mine.
          let rev : reversal_of b.weighing_task_id db' ≡ some r =
            subst (λ j. reversal_of j db' ≡ some r) (sym mine) found in
          (
            frozen env' k PaymentStatus.paid "BILLING_PAID" op' b r db' here rev,
            frozen env' k PaymentStatus.waived "BILLING_WAIVED" op' b r db' here rev,
          ),
    )
