-- ===== src/System/Refunds.antt =====
-- A reversal stands only for a completed task, and the fee of that task is not paid.
use timber_ops.Prelude.{
  ◌≡◌, refl, sym, subst, inl, inr, Bool, false, Bool-cases, some, none, List, ◌==◌, nat_eq, nat_beq,
  nat_beq_iff, lookup, update, same_row, lookup-update_ne, lookup-insert_old, Table, Every,
  Every-insert, first_where, first_where-insert_new, first_where-insert_other,
  first_where-update_other, first_where-lookup, arith,
}
use timber_ops.Domain.Enums.{PaymentStatus, payment_status_eq, WeighingStatus}
use timber_ops.Store.Rows.{Uuid, WeighingTask, BillingRecord, WeighingReversal}
use timber_ops.Store.Db.{Db, Env}
use timber_ops.Billing.Payments.{reversal_of}
use timber_ops.Weighing.Lifecycle.{with_completion}
use timber_ops.Reversal.{is_paid}
use timber_ops.System.Requests.{Request, run}
use timber_ops.Weighing.Tasks.{touched}
use timber_ops.System.Changes.{
  Change, IsMoved, IsFeeOf, there, billed, unchanged, vehicles_changed, customers_changed,
  task_created, task_moved, task_read, task_completed, fee_settled, task_reversed,
}
use timber_ops.System.Settled.{moved-not-IsSettled}
use timber_ops.System.Induction.{run_induction}

abbrev reverses : Uuid → WeighingReversal → Bool
reverses id r = r.original_task_id == id

abbrev fee_for : Uuid → BillingRecord → Bool
fee_for id b = b.weighing_task_id == id

-- Task `id` is in the table, and completed.
abbrev pub IsCompleted : Uuid → Table WeighingTask → Type 0
IsCompleted id tasks =
    (t : WeighingTask) × (lookup id tasks ≡ some t) × (t.status ≡ WeighingStatus.completed)

-- The first fee record of task `id` is not paid, if there is one.
abbrev pub IsUnpaid : Uuid → Table BillingRecord → Type 0
IsUnpaid id fees = is_paid (first_where (fee_for id) fees) ≡ false

-- Both, of the task of every reversal.
abbrev pub AreRefundFree : Db → Type 0
AreRefundFree db =
    Every
      (λ _ r.
        IsCompleted r.original_task_id db.tasks × IsUnpaid r.original_task_id db.billing_records)
      db.reversals

moved-IsCompleted :
    (env : Env) (i : Uuid) (db : Db) (t t' w : WeighingTask) (id : Uuid)
    → IsMoved env i db t t'
    → IsCompleted id db.tasks
    → IsCompleted id (update i w db.tasks)
moved-IsCompleted env i db t t' w id m (u, here, done) = elim (Bool-cases (nat_beq id i)) [
  | inl e ↦
      let same = same_row id i db.tasks u t e here m.found in
      absurd (
        moved-not-IsSettled env i db t t' m
          (inl (subst (λ x. x.status ≡ WeighingStatus.completed) same done)))
  | inr ne ↦ (u, ground (arith, lookup-update_ne id i w db.tasks), done)
]

billed-IsUnpaid :
    (env : Env) (i v : Uuid) (db : Db) (fees : Table BillingRecord) (id : Uuid)
    → IsFeeOf env i v db fees
    → IsUnpaid id db.billing_records
    → IsUnpaid id fees
billed-IsUnpaid env i v db fees id (there _ _ e) h = rw e h
billed-IsUnpaid env i v db fees id (billed n fresh mine _ unpaid e) h =
    elim (Bool-cases (fee_for id n)) [
      | inl mine_ ↦
          let key : i ≡ id = ground (arith, nat_beq_iff n.weighing_task_id id) in
          let none_ : first_where (fee_for id) db.billing_records ≡ none =
            subst (λ j. first_where (fee_for j) db.billing_records ≡ none) key fresh in
          rw
            (
              e,
              first_where-insert_new (fee_for id) (env.uuid 0) n db.billing_records none_ mine_,
              unpaid,
            )
            refl
      | inr other ↦
          rw (e, first_where-insert_other (fee_for id) (env.uuid 0) n db.billing_records other) h
    ]

settled-IsUnpaid :
    (i : Uuid) (b : BillingRecord) (target : PaymentStatus) (db : Db) (k : Uuid)
    (r : WeighingReversal)
    → lookup i db.billing_records ≡ some b
    → reversal_of b.weighing_task_id db ≡ none
    → lookup k db.reversals ≡ some r
    → IsUnpaid r.original_task_id db.billing_records
    → IsUnpaid r.original_task_id
        (update i (record b { payment_status = target }) db.billing_records)
settled-IsUnpaid i b target db k r found free here h =
    elim (Bool-cases (fee_for r.original_task_id b)) [
      | inl mine_ ↦
          let key : b.weighing_task_id ≡ r.original_task_id =
            (nat_beq_iff b.weighing_task_id r.original_task_id).0 mine_ in
          absurd (
            first_where-lookup (reverses b.weighing_task_id) k r db.reversals here
              ((nat_beq_iff r.original_task_id b.weighing_task_id).1 (sym key)) free)
      | inr other ↦
          rw
            (first_where-update_other (fee_for r.original_task_id) i
              (record b { payment_status = target }) b db.billing_records found other other)
            h
    ]

Change-AreRefundFree :
    (env : Env) (db db' : Db) → Change env db db' → AreRefundFree db → AreRefundFree db'
Change-AreRefundFree env db db' (unchanged e) h = rw e h
Change-AreRefundFree env db db' (vehicles_changed _ _ _ _ e) h = rw e h
Change-AreRefundFree env db db' (customers_changed _ _ _ e) h = rw e h
Change-AreRefundFree env db db' (task_created t _ _ _ e) h = rw e (λ k r here.
    let ((u, old, done), unpaid) = h k r here in
    ((u, lookup-insert_old r.original_task_id (env.uuid 0) t u db.tasks old, done), unpaid))
Change-AreRefundFree env db db' (task_moved i t t' _ m _ _ e) h = rw e (λ k r here.
    let (done, unpaid) = h k r here in
    (moved-IsCompleted env i db t t' (touched env t') r.original_task_id m done, unpaid))
Change-AreRefundFree env db db' (task_read i t t' _ _ _ m _ _ e) h = rw e (λ k r here.
    let (done, unpaid) = h k r here in
    (moved-IsCompleted env i db t t' (touched env t') r.original_task_id m done, unpaid))
Change-AreRefundFree env db db' (task_completed i t fees _ _ m f e) h = rw e (λ k r here.
    let (done, unpaid) = h k r here in
    (
      moved-IsCompleted env i db t _ (touched env (with_completion env.now t)) r.original_task_id m
          done,
      billed-IsUnpaid env i t.vehicle_id db fees r.original_task_id f unpaid,
    ))
Change-AreRefundFree env db db' (fee_settled i b target _ _ found free _ e) h = rw e (λ k r here.
    let (done, unpaid) = h k r here in
    (done, settled-IsUnpaid i b target db k r found free here unpaid))
Change-AreRefundFree env db db' (task_reversed i t n _ _ found done _ unpaid mine e) h = rw e (
    Every-insert
      (λ _ r.
        IsCompleted r.original_task_id db.tasks × IsUnpaid r.original_task_id db.billing_records)
      (env.uuid 0) n db.reversals h
      (subst (λ j. IsCompleted j db.tasks × IsUnpaid j db.billing_records) (sym mine)
        ((t, found, done), unpaid)))

-- If every reversal is of a completed task whose fee is not paid, the same is true after any
-- requests: neither is a paid task reversed, nor the fee of a reversed task paid.
pub run-AreRefundFree :
    (rs : List (Env × Request)) (db : Db) → AreRefundFree db → AreRefundFree (run rs db)
run-AreRefundFree = run_induction AreRefundFree Change-AreRefundFree
