-- ===== src/Reversal/Race.antt =====
-- Two sessions reverse one task at once.
use timber_ops.Prelude.{
  ◌≡◌, inl, inr, Bool, true, false, ◌==◌, nat_eq, some, none, Option-cases, arith,
}
use timber_ops.Domain.Enums.{payment_status_eq, WeighingStatus, weighing_status_eq}
use timber_ops.Domain.Errors.{ok}
use timber_ops.Store.Rows.{Uuid, WeighingTask, BillingRecord, WeighingReversal}
use timber_ops.Store.Db.{Db, Env}
use timber_ops.Store.Constraints.{satisfies, in_range, reversals_ok, fits_column, reversal_in_range}
use timber_ops.Store.Session.{flush, IsCommitted}
use timber_ops.Store.Uniqueness.{distinct-append_false, all-append, all-first}
use timber_ops.Billing.Fees.{billing_of}
use timber_ops.Billing.Payments.{reversal_of}
use timber_ops.Weighing.Tasks.{get_task_for_update}
use timber_ops.Weighing.Effects.Active.{IsActive}
use timber_ops.Reversal.{WeighingReversalCreate, is_paid, new_reversal, reversal_inserted, reverse}

abbrev same_task : Uuid × WeighingReversal → Uuid × WeighingReversal → Bool
same_task a b = a.1.original_task_id == b.1.original_task_id

module _ (env : Env) (id : Uuid) (input : WeighingReversalCreate) (op : Uuid) (db w : Db)
    (x : Uuid × WeighingReversal) where
  abbrev row : WeighingReversal
  row = new_reversal env id input op (billing_of id db)

  twice : reversal_of id w ≡ some x → reversals_ok (reversal_inserted env row w) ≡ false
  unfolding reversals_ok
  twice e =
      let dup = distinct-append_false same_task (env.uuid 0, row) x w.reversals e in
      ground (arith, dup)

  refused : reversal_of id w ≡ some x → satisfies (reversal_inserted env row w) ≡ false
  unfolding satisfies
  refused e = ground (arith, twice e)

  fee_fits :
      (b : Uuid × BillingRecord)
      → in_range db ≡ true
      → billing_of id db ≡ some b
      → fits_column b.1.fee_amount ≡ true
  unfolding in_range
  fee_fits b g e =
      all-first (λ r. fits_column r.1.fee_amount) (λ r. r.1.weighing_task_id == id) b
        db.billing_records (ground arith) e

  fits : in_range db ≡ true → in_range w ≡ true → in_range (reversal_inserted env row w) ≡ true
  unfolding in_range
  fits g h = elim (Option-cases (billing_of id db)) [
    | inl no_fee ↦
        ground (arith, all-append (λ r. reversal_in_range r.1) w.reversals (env.uuid 0, row))
    | inr (b, e) ↦ ground (
      arith,
      fee_fits b g e,
      all-append (λ r. reversal_in_range r.1) w.reversals (env.uuid 0, row),
    )
  ]

-- If another session commits a reversal of a task between the reads of `reverse` and its flush,
-- then `reverse`, which found the task completed, not deleted, not reversed and not paid, returns
-- the other session's reversal and leaves what that session committed, when both databases satisfy
-- their constraints.
pub reverse_race :
    (env : Env) (id : Uuid) (input : WeighingReversalCreate) (op : Uuid) (others : Db → Db)
    (db : Db) (task : WeighingTask) (x : Uuid × WeighingReversal)
    → IsCommitted db
    → IsCommitted (others db)
    → IsActive id db task
    → task.status ≡ WeighingStatus.completed
    → reversal_of id db ≡ none
    → is_paid (billing_of id db) ≡ false
    → reversal_of id (others db) ≡ some x
    → reverse env id input op others db ≡ ok (x, others db)
unfolding reverse flush get_task_for_update
reverse_race env id input op others db task x good good' a done free unpaid won =
    let no = refused env id input op db (others db) x won in
    let wide = fits env id input op db (others db) x good.ranges good'.ranges in
    ground (arith, a.found, a.kept)
