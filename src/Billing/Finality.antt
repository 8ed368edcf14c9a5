-- ===== src/Billing/Finality.antt =====
-- What a paid or waived fee admits: the same call again, and nothing else.
use timber_ops.Prelude.{
  ◌≡◌, ◌≢◌, refl, inl, inr, String, some, none, lookup, lookup-update_self, arith,
}
use timber_ops.Domain.Enums.{PaymentStatus, payment_status_eq}
use timber_ops.Domain.Errors.{ok, err, business_rule}
use timber_ops.Store.Rows.{Uuid, BillingRecord}
use timber_ops.Store.Db.{Db, Env}
use timber_ops.Billing.Payments.{reversal_of, transition_payment_status, mark_paid, waive}
use timber_ops.Billing.Effects.{transition-eq-ok}

-- the record that stands in the table after a call that returned
module _ (env : Env) (id : Uuid) (target : PaymentStatus) (action : String) (op : Uuid) (db : Db)
    (r : BillingRecord) (db' : Db) where
  record_after :
      transition_payment_status env id target action op db ≡ ok (r, db')
      → (lookup id db'.billing_records ≡ some r)
        × (reversal_of r.weighing_task_id db' ≡ none)
        × (r.payment_status ≡ target)
  record_after h =
      let (row, found, free, way) = transition-eq-ok env id target action op db r db' h in
      elim way [
        | inl (there, same, kept) ↦ (rw (same, kept) found, rw (same, kept) free, rw same there)
        | inr (_, same, written, _) ↦ (
          rw (same, written)
              (lookup-update_self id (record row { payment_status = target }) row db.billing_records
                found),
          rw (same, written) free,
          rw same refl,
        )
      ]

  again :
      (env' : Env) (action' : String) (op' : Uuid)
      → transition_payment_status env id target action op db ≡ ok (r, db')
      → transition_payment_status env' id target action' op' db' ≡ ok (r, db')
  unfolding transition_payment_status
  again env' action' op' h =
      let (found, free, there) = record_after h in ground (arith, found, free, there)

  refused :
      (env' : Env) (other : PaymentStatus) (action' : String) (op' : Uuid)
      → target ≢ PaymentStatus.unpaid
      → other ≢ target
      → transition_payment_status env id target action op db ≡ ok (r, db')
      → transition_payment_status env' id other action' op' db' ≡ err business_rule
  unfolding transition_payment_status
  refused env' other action' op' final differs h =
      let (found, free, there) = record_after h in
      ground (arith, found, free, there, final, differs)

-- Once `mark_paid` has returned a record, the record is paid, `mark_paid` by anyone returns it
-- again and changes nothing, and `waive` is refused as a breach of the business rules.
pub mark_paid_final :
    (env env' : Env) (id op op' : Uuid) (db : Db) (r : BillingRecord) (db' : Db)
    → mark_paid env id op db ≡ ok (r, db')
    → (r.payment_status ≡ PaymentStatus.paid)
      × (mark_paid env' id op' db' ≡ ok (r, db'))
      × (waive env' id op' db' ≡ err business_rule)
unfolding mark_paid waive
mark_paid_final env env' id op op' db r db' h =
    let (_, _, there) = record_after env id PaymentStatus.paid "BILLING_PAID" op db r db' h in
    (
      there,
      again env id PaymentStatus.paid "BILLING_PAID" op db r db' env' "BILLING_PAID" op' h,
      refused env id PaymentStatus.paid "BILLING_PAID" op db r db' env' PaymentStatus.waived
          "BILLING_WAIVED" op' (ground arith) (ground arith) h,
    )

-- Once `waive` has returned a record, the record is waived, `waive` by anyone returns it again and
-- changes nothing, and `mark_paid` is refused as a breach of the business rules.
pub waive_final :
    (env env' : Env) (id op op' : Uuid) (db : Db) (r : BillingRecord) (db' : Db)
    → waive env id op db ≡ ok (r, db')
    → (r.payment_status ≡ PaymentStatus.waived)
      × (waive env' id op' db' ≡ ok (r, db'))
      × (mark_paid env' id op' db' ≡ err business_rule)
unfolding mark_paid waive
waive_final env env' id op op' db r db' h =
    let (_, _, there) = record_after env id PaymentStatus.waived "BILLING_WAIVED" op db r db' h in
    (
      there,
      again env id PaymentStatus.waived "BILLING_WAIVED" op db r db' env' "BILLING_WAIVED" op' h,
      refused env id PaymentStatus.waived "BILLING_WAIVED" op db r db' env' PaymentStatus.paid
          "BILLING_PAID" op' (ground arith) (ground arith) h,
    )
