-- ===== src/System/Reversals.antt =====
-- What a reversal means for the task and for its fee.
use timber_ops.Prelude.{
  ◌≡◌, sym, subst, inl, inr, Bool, Bool-cases, some, none, List, ◌==◌, nat_eq, nat_beq, lookup,
  update, same_row, lookup-update_ne, lookup-insert_old, first_where-insert_old, arith,
}
use timber_ops.Domain.Enums.{payment_status_eq}
use timber_ops.Store.Rows.{Uuid, BillingRecord, WeighingReversal}
use timber_ops.Store.Db.{Db, Env}
use timber_ops.Billing.Payments.{reversal_of}
use timber_ops.System.Requests.{Request, run}
use timber_ops.System.Changes.{
  Change, there, billed, unchanged, vehicles_changed, customers_changed, task_created, task_moved,
  task_read, task_completed, fee_settled, task_reversed,
}
use timber_ops.System.Induction.{run_induction}

abbrev reverses : Uuid → WeighingReversal → Bool
reverses id r = r.original_task_id == id

abbrev fee_for : Uuid → BillingRecord → Bool
fee_for id b = b.weighing_task_id == id

-- the fee record of a reversed task
module _ (k : Uuid) (b : BillingRecord) (r : Uuid × WeighingReversal) where
  abbrev IsFrozen : Db → Type 0
  IsFrozen db =
      (reversal_of b.weighing_task_id db ≡ some r) × (lookup k db.billing_records ≡ some b)

  settled-IsFrozen :
      (i : Uuid) (c w : BillingRecord) (db : Db)
      → lookup i db.billing_records ≡ some c
      → reversal_of c.weighing_task_id db ≡ none
      → IsFrozen db
      → lookup k (update i w db.billing_records) ≡ some b
  settled-IsFrozen i c w db found open_ (rev, here) = elim (Bool-cases (nat_beq k i)) [
    | inl e ↦
        let same = same_row k i db.billing_records b c e here found in
        let none_ : reversal_of b.weighing_task_id db ≡ none =
          subst (λ x. reversal_of x.weighing_task_id db ≡ none) (sym same) open_ in
        absurd cc
    | inr ne ↦ ground (arith, lookup-update_ne k i w db.billing_records)
  ]

  Change-IsFrozen : (env : Env) (db db' : Db) → Change env db db' → IsFrozen db → IsFrozen db'
  Change-IsFrozen env db db' (unchanged e) h = rw e h
  Change-IsFrozen env db db' (vehicles_changed _ _ _ _ e) h = rw e h
  Change-IsFrozen env db db' (customers_changed _ _ _ e) h = rw e h
  Change-IsFrozen env db db' (task_created _ _ _ _ e) h = rw e h
  Change-IsFrozen env db db' (task_moved _ _ _ _ _ _ _ e) h = rw e h
  Change-IsFrozen env db db' (task_read _ _ _ _ _ _ _ _ _ e) h = rw e h
  Change-IsFrozen env db db' (task_completed _ _ _ _ _ _ (there _ _ f) e) h = rw (e, f) h
  Change-IsFrozen env db db' (task_completed _ _ _ _ _ _ (billed n _ _ _ _ f) e) (rev, here) =
      rw (e, f) (rev, lookup-insert_old k (env.uuid 0) n b db.billing_records here)
  Change-IsFrozen env db db' (fee_settled i c target _ _ found open_ _ e) (rev, here) =
      rw e (
        rev,
        settled-IsFrozen i c (record c { payment_status = target }) db found open_ (rev, here),
      )
  Change-IsFrozen env db db' (task_reversed _ _ n _ _ _ _ _ _ _ e) (rev, here) =
      rw e (
        first_where-insert_old (reverses b.weighing_task_id) r (env.uuid 0) n db.reversals rev,
        here,
      )

-- Once the task of a fee record is reversed, no request changes that record, and the task keeps
-- that reversal.
pub run_frozen :
    (k : Uuid) (b : BillingRecord) (r : Uuid × WeighingReversal) (rs : List (Env × Request))
    (db : Db)
    → reversal_of b.weighing_task_id db ≡ some r
    → lookup k db.billing_records ≡ some b
    → (reversal_of b.weighing_task_id (run rs db) ≡ some r)
      × (lookup k (run rs db).billing_records ≡ some b)
run_frozen k b r rs db rev here =
    run_induction (IsFrozen k b r) (Change-IsFrozen k b r) rs db (rev, here)
