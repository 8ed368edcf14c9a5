-- ===== src/Weighing/Charges.antt =====
-- What a completed task is charged.
use timber_ops.Prelude.{
  ◌≡◌, sym, ap, ◌∙◌, ◌⊎◌, inl, inr, true, ◌==◌, nat_eq, nat_beq_iff, Option, some, none, lookup,
  first_where-insert_new, lookup-update_self,
}
use timber_ops.Domain.Enums.{PaymentStatus, VehicleType, WeighingStatus, WeightResult}
use timber_ops.Domain.Errors.{ok}
use timber_ops.Store.Rows.{Uuid, Vehicle, BillingRule, BillingRecord, WeighingTask}
use timber_ops.Store.Db.{Db, Env}
use timber_ops.Billing.Fees.{billing_of, effective_rule, ensure_record_for_completed_task}
use timber_ops.Billing.Effects.{IsBilled, ensure_record-eq-ok}
use timber_ops.Weighing.Tasks.{save_task, touched}
use timber_ops.Weighing.Lifecycle.{with_completion, complete_task}
use timber_ops.Weighing.Effects.LifecycleCalls.{complete_task-eq-ok}

-- A fee at the price of the rule that is effective now for the type of the task's vehicle.
pub record IsPriceOf (env : Env) (db : Db) (vehicle_id : Uuid) (b : BillingRecord) : Type 0 where
  pub vehicle : Vehicle
  pub vehicle_type : VehicleType
  pub rule : Uuid × BillingRule
  pub owner : lookup vehicle_id db.vehicles ≡ some vehicle
  pub typed : vehicle.vehicle_type ≡ some vehicle_type
  pub chosen : effective_rule vehicle_type env.now db ≡ some rule
  pub vehicle_kept : b.vehicle_id ≡ vehicle_id
  pub snapshot : b.vehicle_type_snapshot ≡ vehicle_type
  pub price : b.fee_amount ≡ rule.1.fee_amount
  pub unpaid : b.payment_status ≡ PaymentStatus.unpaid

-- The fee record of a task that was just completed: an old one, as it was, or a new one.
abbrev pub IsCharged : Env → Uuid → Uuid → Db → Uuid × BillingRecord → Type 0
IsCharged env id vehicle_id db b =
    (billing_of id db ≡ some b) ⊎ (billing_of id db ≡ none) × IsPriceOf env db vehicle_id b.1

-- over the database in which the task is saved already
billed-IsPriceOf :
    (env : Env) (id i : Uuid) (task saved : WeighingTask) (db db' : Db) (b : Uuid × BillingRecord)
    → IsBilled env 0 id task env.now (save_task env i saved db) b db'
    → IsPriceOf env db task.vehicle_id b.1
unfolding effective_rule
billed-IsPriceOf env id j task saved db db' b i = record {
  vehicle = i.vehicle;
  vehicle_type = i.vehicle_type;
  rule = i.rule;
  owner = i.owner;
  typed = i.typed;
  chosen = i.chosen;
  vehicle_kept = ap (λ r. r.1.vehicle_id) i.made;
  snapshot = ap (λ r. r.1.vehicle_type_snapshot) i.made;
  price = ap (λ r. r.1.fee_amount) i.made;
  unpaid = ap (λ r. r.1.payment_status) i.made;
}

new_fee_found :
    (env : Env) (id : Uuid) (task : WeighingTask) (db db' : Db) (b : Uuid × BillingRecord)
    → billing_of id db ≡ none
    → IsBilled env 0 id task env.now db b db'
    → billing_of id db' ≡ some b
new_fee_found env id task db db' b free i =
    let (k, row) = b in
    let mine : (row.weighing_task_id == id) ≡ true =
      (nat_beq_iff row.weighing_task_id id).1 (ap (λ r. r.1.weighing_task_id) i.made) in
    let key : env.uuid 0 ≡ k = sym (ap (λ r. r.0) i.made) in
    ap (λ d. billing_of id d) i.written
    ∙ first_where-insert_new (λ r. r.weighing_task_id == id) (env.uuid 0) row db.billing_records
        free mine
    ∙ ap (λ j. some (j, row)) key

module _ (env : Env) (id : Uuid) (task : WeighingTask) (db : Db) where
  abbrev saved : Db
  saved = save_task env id (with_completion env.now task) db

  fee_after :
      (b : Uuid × BillingRecord) (d : Db)
      → ensure_record_for_completed_task env 0 id
          (with_completion env.now task)
          (some env.now)
          saved
        ≡ ok (b, d)
      → (billing_of id d ≡ some b) × (d.tasks ≡ saved.tasks) × IsCharged env id task.vehicle_id db b
  fee_after b d h =
      let (_, way) =
        ensure_record-eq-ok env 0 id (with_completion env.now task) (some env.now) saved b d h in
      elim way [
        | inl (there, same) ↦ (ap (billing_of id) same ∙ there, ap (λ x. x.tasks) same, inl there)
        | inr (free, i) ↦ (
          new_fee_found env id (with_completion env.now task) saved d b free i,
          ap (λ x. x.tasks) i.written,
          inr (
            free,
            billed-IsPriceOf env id id (with_completion env.now task) (with_completion env.now task)
                db d b i,
          ),
        )
      ]

-- `complete_task` returns only for a task that is fully weighed and normal; the task is then stored
-- as completed at the time of the call, and has a fee record: the one it had, or a new and unpaid
-- one for its vehicle, with the price of the rule that is effective at that time for the type that
-- the vehicle has.
pub complete_task-IsCharged :
    (env : Env) (id : Uuid) (op : Option Uuid) (db : Db) (r : WeighingTask) (db' : Db)
    → complete_task env id op db ≡ ok (r, db')
    → (t : WeighingTask) × (b : Uuid × BillingRecord) × (lookup id db.tasks ≡ some t)
      × (t.status ≡ WeighingStatus.gross_completed)
      × (t.weight_result ≡ WeightResult.normal)
      × (r ≡ with_completion env.now t)
      × (lookup id db'.tasks ≡ some (touched env r))
      × (billing_of id db' ≡ some b)
      × IsCharged env id t.vehicle_id db b
complete_task-IsCharged env id op db r db' h =
    let (t, (b, d), a, normal, weighed, ensured, same, written, _) =
      complete_task-eq-ok env id op db db' r h in
    let (found, kept, charged) = fee_after env id t db b d ensured in
    let row : WeighingTask = touched env (with_completion env.now t) in
    let stored : lookup id db'.tasks ≡ some row =
      ap (λ x. lookup id x.tasks) written
      ∙ ap (lookup id) kept
      ∙ lookup-update_self id row t db.tasks a.found in
    (
      t,
      b,
      a.found,
      weighed,
      normal,
      same,
      stored ∙ ap (λ x. some (touched env x)) (sym same),
      ap (billing_of id) written ∙ found,
      charged,
    )
