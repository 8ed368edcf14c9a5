-- ===== src/System/FeeRows.antt =====
-- What a fee record keeps, and how its payment status moves.
use timber_ops.Prelude.{
  ◌≡◌, refl, subst, ◌⊎◌, inl, inr, Bool-cases, some, List, nat_beq, nat_beq_iff, lookup, update,
  same_row, lookup-update_self, lookup-update_ne, lookup-insert_old, arith,
}
use timber_ops.Domain.Enums.{PaymentStatus}
use timber_ops.Store.Rows.{Uuid, BillingRecord}
use timber_ops.Store.Db.{Db, Env}
use timber_ops.System.Requests.{Request, run}
use timber_ops.System.Changes.{
  Change, IsFeeOf, there, billed, unchanged, vehicles_changed, customers_changed, task_created,
  task_moved, task_read, task_completed, fee_settled, task_reversed,
}
use timber_ops.System.Induction.{run_induction}

-- The record as it was billed; its status may have left `unpaid`, once.
pub record IsLater (b b' : BillingRecord) : Type 0 where
  pub task : b'.weighing_task_id ≡ b.weighing_task_id
  pub vehicle : b'.vehicle_id ≡ b.vehicle_id
  pub vehicle_type : b'.vehicle_type_snapshot ≡ b.vehicle_type_snapshot
  pub amount : b'.fee_amount ≡ b.fee_amount
  pub creation : b'.created_at ≡ b.created_at
  pub payment : (b'.payment_status ≡ b.payment_status) ⊎ (b.payment_status ≡ PaymentStatus.unpaid)

IsLater-refl : (b : BillingRecord) → IsLater b b
IsLater-refl b = record {
  task = refl;
  vehicle = refl;
  vehicle_type = refl;
  amount = refl;
  creation = refl;
  payment = inl refl;
}

IsLater-settled :
    (b c : BillingRecord) (target : PaymentStatus)
    → c.payment_status ≡ PaymentStatus.unpaid
    → IsLater b c
    → IsLater b (record c { payment_status = target })
IsLater-settled b c target unpaid l = record {
  task = l.task;
  vehicle = l.vehicle;
  vehicle_type = l.vehicle_type;
  amount = l.amount;
  creation = l.creation;
  payment = elim l.payment [ inl e ↦ inr cc | inr e ↦ inr e ];
}

module _ (k : Uuid) (b : BillingRecord) where
  abbrev HasLater : Db → Type 0
  HasLater db = (c : BillingRecord) × (lookup k db.billing_records ≡ some c) × IsLater b c

  settled-HasLater :
      (i : Uuid) (c : BillingRecord) (target : PaymentStatus) (db : Db)
      → lookup i db.billing_records ≡ some c
      → c.payment_status ≡ PaymentStatus.unpaid
      → HasLater db
      → (d : BillingRecord) × (lookup k
            (update i (record c { payment_status = target }) db.billing_records)
          ≡ some d)
        × IsLater b d
  settled-HasLater i c target db found unpaid (d, here, l) = elim (Bool-cases (nat_beq k i)) [
    | inl e ↦
        let same = same_row k i db.billing_records d c e here found in
        let key : k ≡ i = (nat_beq_iff k i).0 e in
        (
          record c { payment_status = target },
          rw key (
              lookup-update_self i (record c { payment_status = target }) c db.billing_records
                found),
          IsLater-settled b c target unpaid (subst (IsLater b) same l),
        )
    | inr ne ↦ (
      d,
      ground
          (arith, lookup-update_ne k i (record c { payment_status = target }) db.billing_records),
      l,
    )
  ]

  completed-HasLater :
      (env : Env) (i vehicle_id : Uuid) (db db' : Db)
      → IsFeeOf env i vehicle_id db db'.billing_records
      → HasLater db
      → HasLater db'
  completed-HasLater env i vehicle_id db db' (there _ _ e) h = rw e h
  completed-HasLater env i vehicle_id db db' (billed n _ _ _ _ e) (c, here, l) =
      (c, rw e (lookup-insert_old k (env.uuid 0) n c db.billing_records here), l)

  Change-HasLater : (env : Env) (db db' : Db) → Change env db db' → HasLater db → HasLater db'
  Change-HasLater env db db' (unchanged e) h = rw e h
  Change-HasLater env db db' (vehicles_changed _ _ _ _ e) h = rw e h
  Change-HasLater env db db' (customers_changed _ _ _ e) h = rw e h
  Change-HasLater env db db' (task_created _ _ _ _ e) h = rw e h
  Change-HasLater env db db' (task_moved _ _ _ _ _ _ _ e) h = rw e h
  Change-HasLater env db db' (task_read _ _ _ _ _ _ _ _ _ e) h = rw e h
  Change-HasLater env db db' (task_completed i t fees _ _ _ f e) h =
      rw e (completed-HasLater env i t.vehicle_id db (record db { billing_records = fees }) f h)
  Change-HasLater env db db' (fee_settled i c target _ _ found _ unpaid e) h =
      rw e (settled-HasLater i c target db found unpaid h)
  Change-HasLater env db db' (task_reversed _ _ _ _ _ _ _ _ _ _ e) h = rw e h

-- Under any requests a fee record stays in the table with its task, vehicle, vehicle type, amount
-- and time of creation; its payment status stays what it was unless it was unpaid.
pub run-IsLater :
    (k : Uuid) (b : BillingRecord) (rs : List (Env × Request)) (db : Db)
    → lookup k db.billing_records ≡ some b
    → (c : BillingRecord) × (lookup k (run rs db).billing_records ≡ some c) × IsLater b c
run-IsLater k b rs db h =
    run_induction (HasLater k b) (Change-HasLater k b) rs db (b, h, IsLater-refl b)
