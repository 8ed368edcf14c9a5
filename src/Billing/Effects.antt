-- ===== src/Billing/Effects.antt =====
-- What the calls of the billing service have tested and written when they return.
use timber_ops.Prelude.{
  ℕ, ◌≡◌, refl, ◌⊎◌, inl, inr, Bool-cases, not, ◌==◌, String, Option, none, some, lookup, insert,
  is_none, arith,
}
use timber_ops.Domain.Enums.{
  VehicleType, PaymentStatus, payment_status_eq, WeighingStatus, weighing_status_eq,
}
use timber_ops.Domain.Errors.{
  ok, not_found, business_rule, ◌>>=◌, ◌>>◌, raise_if, or_raise, or_raise-eq-ok, >>=-eq-ok,
  raise_if-eq-ok,
}
use timber_ops.Store.Rows.{Uuid, Time, Vehicle, WeighingTask, BillingRule, BillingRecord}
use timber_ops.Store.Db.{Db, Env}
use timber_ops.Store.Session.{flush, IsCommitted, flushes-eq-ok}
use timber_ops.Billing.Fees.{
  billing_of, effective_rule, effective_at, new_fee, create_record, existing_or_created,
  ensure_record_for_completed_task,
}
use timber_ops.Billing.Payments.{reversal_of, payment_written, transition_payment_status}

-- The fee record that `create_record` writes, and what it is made from.
pub record IsBilled (env : Env) (draw : ℕ) (id : Uuid) (task : WeighingTask) (at : Time) (db : Db)
    (r : Uuid × BillingRecord) (db' : Db) : Type 0 where
  pub vehicle : Vehicle
  pub vehicle_type : VehicleType
  pub rule : Uuid × BillingRule
  pub owner : lookup task.vehicle_id db.vehicles ≡ some vehicle
  pub typed : vehicle.vehicle_type ≡ some vehicle_type
  pub chosen : effective_rule vehicle_type at db ≡ some rule
  pub made : r ≡ (env.uuid draw, new_fee env id task.vehicle_id vehicle_type rule.1)
  pub written : db' ≡ record db { billing_records = insert (env.uuid draw) r.1 db.billing_records }

pub create_record-eq-ok :
    (env : Env) (draw : ℕ) (id : Uuid) (task : WeighingTask) (at : Option Time) (db : Db)
    (r : Uuid × BillingRecord) (db' : Db)
    → create_record env draw id task at db ≡ ok (r, db')
    → IsBilled env draw id task (effective_at env at task.completed_at) db r db'
unfolding create_record
create_record-eq-ok env draw id task at db r db' h =
    let (v, ve, h1) =
      >>=-eq-ok (or_raise (lookup task.vehicle_id db.vehicles) business_rule) _ _ h in
    let (t, te, h2) = >>=-eq-ok (or_raise v.vehicle_type business_rule) _ _ h1 in
    let when = effective_at env at task.completed_at in
    let (rule, re, h3) = >>=-eq-ok (or_raise (effective_rule t when db) business_rule) _ _ h2 in
    let row = new_fee env id task.vehicle_id t rule.1 in
    let (same, written, good) =
      flushes-eq-ok (record db { billing_records = insert (env.uuid draw) row db.billing_records })
        (env.uuid draw, row) r db' h3 in
    record {
      vehicle = v;
      vehicle_type = t;
      rule = rule;
      owner = or_raise-eq-ok (lookup task.vehicle_id db.vehicles) business_rule v ve;
      typed = or_raise-eq-ok v.vehicle_type business_rule t te;
      chosen = or_raise-eq-ok (effective_rule t when db) business_rule rule re;
      made = same;
      written = rw same written;
    }

pub ensure_record-eq-ok :
    (env : Env) (draw : ℕ) (id : Uuid) (task : WeighingTask) (at : Option Time) (db : Db)
    (r : Uuid × BillingRecord) (db' : Db)
    → ensure_record_for_completed_task env draw id task at db ≡ ok (r, db')
    → (task.status ≡ WeighingStatus.completed)
      × ((billing_of id db ≡ some r) × (db' ≡ db)
          ⊎ (billing_of id db ≡ none)
            × IsBilled env draw id task (effective_at env at task.completed_at) db r db')
unfolding ensure_record_for_completed_task
ensure_record-eq-ok env draw id task at db r db' h =
    let (st, h1) = raise_if-eq-ok (not (task.status == WeighingStatus.completed)) _ _ _ h in
    (ground arith, by_existing (billing_of id db) h1)
  where
    by_existing :
        (o : Option (Uuid × BillingRecord))
        → existing_or_created env draw id task at db o ≡ ok (r, db')
        → (o ≡ some r) × (db' ≡ db)
          ⊎ (o ≡ none) × IsBilled env draw id task (effective_at env at task.completed_at) db r db'
    by_existing none e = inr (refl, create_record-eq-ok env draw id task at db r db' e)
    by_existing (some b) e = inl (ground arith)

pub transition-eq-ok :
    (env : Env) (id : Uuid) (target : PaymentStatus) (action : String) (op : Uuid) (db : Db)
    (r : BillingRecord) (db' : Db)
    → transition_payment_status env id target action op db ≡ ok (r, db')
    → (row : BillingRecord) × (lookup id db.billing_records ≡ some row)
      × (reversal_of row.weighing_task_id db ≡ none)
      × ((row.payment_status ≡ target) × (r ≡ row) × (db' ≡ db)
          ⊎ (row.payment_status ≡ PaymentStatus.unpaid)
            × (r ≡ record row { payment_status = target })
            × (db' ≡ payment_written env id target action op row db)
            × IsCommitted db')
unfolding transition_payment_status
transition-eq-ok env id target action op db r db' h =
    let (row, re, h1) = >>=-eq-ok (or_raise (lookup id db.billing_records) not_found) _ _ h in
    let (rev, h2) = raise_if-eq-ok (not (is_none (reversal_of row.weighing_task_id db))) _ _ _ h1 in
    (
      row,
      or_raise-eq-ok (lookup id db.billing_records) not_found row re,
      ground arith,
      elim (Bool-cases (row.payment_status == target)) [
        | inl there ↦ inl (ground arith)
        | inr moving ↦
            let h3 : (raise_if (not (row.payment_status == PaymentStatus.unpaid)) business_rule
                  >> ◌>>=◌ {B = BillingRecord × Db}
                      (flush (payment_written env id target action op row db))
                      (λ d. ok (record row { payment_status = target }, d)))
                ≡ ok (r, db') =
              rw moving at h2 in
            let (st, h4) =
              raise_if-eq-ok (not (row.payment_status == PaymentStatus.unpaid)) _ _ _ h3 in
            let (same, written, good) =
              flushes-eq-ok (payment_written env id target action op row db)
                (record row { payment_status = target }) r db' h4 in
            inr (ground arith, same, written, good)
      ],
    )
