-- ===== src/System/Fees.antt =====
-- One fee record for each completed task, none for the others.
use timber_ops.Prelude.{
  ℕ, ◌+◌, ◌≡◌, ◌≢◌, refl, ◌∙◌, sym, subst, Bool, false, if◌then◌else◌, ◌==◌, nat_eq, nat_beq,
  nat_beq_iff, Option, some, none, List, inl, inr, Bool-cases, Option-cases, lookup, insert, update,
  count_where, count_where-insert, count_where-update, count_where-some, lookup-update_self,
  lookup-update_ne, lookup-insert_old, lookup-insert_new, lookup-insert_ne, Table, arith,
}
use timber_ops.Domain.Enums.{WeighingStatus, weighing_status_eq, PaymentStatus}
use timber_ops.Store.Rows.{Uuid, WeighingTask, BillingRecord}
use timber_ops.Store.Db.{Db, Env}
use timber_ops.Weighing.Lifecycle.{with_completion}
use timber_ops.System.Requests.{Request, run}
use timber_ops.Weighing.Tasks.{touched}
use timber_ops.System.Changes.{
  Change, IsMoved, IsNew, IsFeeOf, there, billed, unchanged, vehicles_changed, customers_changed,
  task_created, task_moved, task_read, task_completed, fee_settled, task_reversed,
}
use timber_ops.System.Settled.{moved-not-IsSettled}
use timber_ops.System.Induction.{run_induction}

abbrev fee_for : Uuid → BillingRecord → Bool
fee_for id b = b.weighing_task_id == id

-- How many fee records a task has.
abbrev pub fee_count : Uuid → Table BillingRecord → ℕ
fee_count id = count_where (fee_for id)

-- How many it ought to have.
abbrev pub fees_due : Option WeighingTask → ℕ
fees_due none = 0
fees_due (some t) = if t.status == WeighingStatus.completed then 1 else 0

-- That, of all tasks and of all ids that are no task's.
abbrev pub AreBilled : Db → Type 0
AreBilled db = (id : Uuid) → fee_count id db.billing_records ≡ fees_due (lookup id db.tasks)

created-due :
    (k : Uuid) (t : WeighingTask) (tasks : Table WeighingTask) (id : Uuid)
    → IsNew t
    → fees_due (lookup id (insert k t tasks)) ≡ fees_due (lookup id tasks)
created-due k t tasks id n = elim (Option-cases (lookup id tasks)) [
  | inr (u, old) ↦ rw (lookup-insert_old id k t u tasks old, old) refl
  | inl free ↦ elim (Bool-cases (nat_beq id k)) [
    | inl e ↦
        let key : k ≡ id = sym ((nat_beq_iff id k).0 e) in
        ground (arith, free, n.waits, lookup-insert_new id t tasks free)
    | inr ne ↦ ground (arith, lookup-insert_ne id k t tasks)
  ]
]

moved-not_completed :
    (env : Env) (i : Uuid) (db : Db) (t t' : WeighingTask)
    → IsMoved env i db t t'
    → (t.status == WeighingStatus.completed) ≡ false
moved-not_completed env i db t t' m =
    let settled : t.status ≢ WeighingStatus.completed =
      λ e. moved-not-IsSettled env i db t t' m (inl e) in
    ground arith

moved-due :
    (env : Env) (i : Uuid) (db : Db) (t t' : WeighingTask) (id : Uuid)
    → IsMoved env i db t t'
    → (t'.status ≢ WeighingStatus.completed)
    → fees_due (lookup id (update i (touched env t') db.tasks)) ≡ fees_due (lookup id db.tasks)
moved-due env i db t t' id m not_yet = elim (Bool-cases (nat_beq id i)) [
  | inl e ↦
      let key : i ≡ id = sym ((nat_beq_iff id i).0 e) in
      let was = moved-not_completed env i db t t' m in
      let here = lookup-update_self i (touched env t') t db.tasks m.found in
      let became : (t'.status == WeighingStatus.completed) ≡ false = ground arith in
      subst
        (λ j.
          fees_due (lookup j (update i (touched env t') db.tasks)) ≡ fees_due (lookup j db.tasks))
        key (ground (arith, here, was, became, m.found))
  | inr ne ↦ ground (arith, lookup-update_ne id i (touched env t') db.tasks)
]

-- the task that is completed owes one fee from now on, and the others what they owed
completed-due :
    (env : Env) (i : Uuid) (db : Db) (t : WeighingTask) (id : Uuid)
    → IsMoved env i db t (with_completion env.now t)
    → fees_due (lookup id (update i (touched env (with_completion env.now t)) db.tasks))
      ≡ fees_due (lookup id db.tasks) + (if nat_beq i id then 1 else 0)
completed-due env i db t id m = elim (Bool-cases (nat_beq i id)) [
  | inl e ↦
      let key : i ≡ id = (nat_beq_iff i id).0 e in
      let was = moved-not_completed env i db t _ m in
      let here =
        lookup-update_self i (touched env (with_completion env.now t)) t db.tasks m.found in
      subst
        (λ j.
          fees_due (lookup j (update i (touched env (with_completion env.now t)) db.tasks))
          ≡ fees_due (lookup j db.tasks) + (if nat_beq i j then 1 else 0))
        key (ground (arith, here, was, m.found))
  | inr ne ↦
      ground (arith, lookup-update_ne id i (touched env (with_completion env.now t)) db.tasks)
]

completed-count :
    (env : Env) (i : Uuid) (db : Db) (t : WeighingTask) (fees : Table BillingRecord) (id : Uuid)
    → IsMoved env i db t (with_completion env.now t)
    → IsFeeOf env i t.vehicle_id db fees
    → AreBilled db
    → fee_count id fees ≡ fee_count id db.billing_records + (if nat_beq i id then 1 else 0)
completed-count env i db t fees id m (there b found _) h = absurd (
    ground (
      arith,
      count_where-some (fee_for i) b db.billing_records found,
      h i,
      m.found,
      moved-not_completed env i db t _ m,
    ))
completed-count env i db t fees id m (billed b _ mine _ _ e) h =
    rw (e, sym mine) (count_where-insert (fee_for id) (env.uuid 0) b db.billing_records)

settled-count :
    (i : Uuid) (b : BillingRecord) (target : PaymentStatus) (db : Db) (id : Uuid)
    → lookup i db.billing_records ≡ some b
    → fee_count id (update i (record b { payment_status = target }) db.billing_records)
      ≡ fee_count id db.billing_records
settled-count i b target db id h =
    count_where-update (fee_for id) i (record b { payment_status = target }) b db.billing_records h
      refl

Change-AreBilled : (env : Env) (db db' : Db) → Change env db db' → AreBilled db → AreBilled db'
Change-AreBilled env db db' (unchanged e) h id = rw e (h id)
Change-AreBilled env db db' (vehicles_changed _ _ _ _ e) h id = rw e (h id)
Change-AreBilled env db db' (customers_changed _ _ _ e) h id = rw e (h id)
Change-AreBilled env db db' (task_created t _ _ n e) h id =
    rw e (h id ∙ sym (created-due (env.uuid 0) t db.tasks id n))
Change-AreBilled env db db' (task_moved i t t' _ m not_yet _ e) h id =
    rw e (h id ∙ sym (moved-due env i db t t' id m not_yet))
Change-AreBilled env db db' (task_read i t t' _ _ _ m not_yet _ e) h id =
    rw e (h id ∙ sym (moved-due env i db t t' id m not_yet))
Change-AreBilled env db db' (task_completed i t fees _ _ m f e) h id =
    rw e
      (omega (arith, completed-count env i db t fees id m f h, completed-due env i db t id m, h id))
Change-AreBilled env db db' (fee_settled i b target _ _ found _ _ e) h id =
    rw e (settled-count i b target db id found ∙ h id)
Change-AreBilled env db db' (task_reversed _ _ _ _ _ _ _ _ _ _ e) h id = rw e (h id)

-- If every completed task has exactly one fee record, and no other task and no other id has any,
-- the same is true after any requests.
pub run-AreBilled : (rs : List (Env × Request)) (db : Db) → AreBilled db → AreBilled (run rs db)
run-AreBilled = run_induction AreBilled Change-AreBilled
