-- ===== src/Reversal/Effects.antt =====
-- What `reverse` has tested and written when it returns.
use timber_ops.Prelude.{◌≡◌, refl, not, ◌==◌, false, Option, none, some, arith}
use timber_ops.Domain.Enums.{WeighingStatus, weighing_status_eq}
use timber_ops.Domain.Errors.{Result, ok, err, integrity_error, >>=-eq-ok, raise_if-eq-ok}
use timber_ops.Store.Rows.{Uuid, WeighingTask, WeighingReversal}
use timber_ops.Store.Db.{Db, Env}
use timber_ops.Store.Session.{flush, IsCommitted, flush-eq-ok}
use timber_ops.Billing.Fees.{billing_of}
use timber_ops.Billing.Payments.{reversal_of}
use timber_ops.Weighing.Tasks.{get_task_for_update}
use timber_ops.Weighing.Effects.Active.{IsActive, get_task_for_update-eq-ok}
use timber_ops.Reversal.{
  WeighingReversalCreate, is_paid, new_reversal, reload, recover, reversal_inserted,
  reversal_audited, write_reversal, existing_or_created, reverse,
}

reload-eq-ok :
    (id : Uuid) (db : Db) (r : Uuid × WeighingReversal) (db' : Db)
    → reload id db ≡ ok (r, db')
    → (reversal_of id db ≡ some r) × (db' ≡ db)
reload-eq-ok id db r db' h = ground arith

module _ (env : Env) (id : Uuid) (input : WeighingReversalCreate) (op : Uuid) (others : Db → Db)
    (db : Db) (r : Uuid × WeighingReversal) (db' : Db) where
  -- what the database holds after the reversal is written over `base`
  abbrev pub reversal_written : WeighingTask → Db → Db
  reversal_written task base =
      reversal_audited env id task input op (billing_of id db)
        (reversal_inserted env (new_reversal env id input op (billing_of id db)) base)

  write_reversal-eq-ok :
      (task : WeighingTask) (base w : Db)
      → write_reversal env id task input op (billing_of id db) base ≡ ok w
      → (w ≡ reversal_written task base) × IsCommitted w
  write_reversal-eq-ok task base w h =
      let row = new_reversal env id input op (billing_of id db) in
      let (flushed, fe, h1) = >>=-eq-ok (flush (reversal_inserted env row base)) _ _ h in
      let (same, _) = flush-eq-ok (reversal_inserted env row base) flushed fe in
      let (written, good) =
        flush-eq-ok (reversal_audited env id task input op (billing_of id db) flushed) w h1 in
      (rw same at written, good)

  -- How a reversal that returns came about.
  pub data Outcome (task : WeighingTask) : Type 0 where
    existing : reversal_of id db ≡ some r → db' ≡ db → Outcome task
    created :
        reversal_of id db ≡ none
        → is_paid (billing_of id db) ≡ false
        → reversal_of id db' ≡ some r
        → db' ≡ reversal_written task (others db)
        → IsCommitted db'
        → Outcome task
    recovered :
        reversal_of id db ≡ none
        → is_paid (billing_of id db) ≡ false
        → reversal_of id (others db) ≡ some r
        → db' ≡ others db
        → Outcome task

  Outcome-create :
      (task : WeighingTask)
      → reversal_of id db ≡ none
      → is_paid (billing_of id db) ≡ false
      → (w : Result Db) → write_reversal env id task input op (billing_of id db) (others db) ≡ w
      → recover id (others db) w ≡ ok (r, db')
      → Outcome task
  Outcome-create task no_row unpaid (ok w) we h =
      let (found, same) = reload-eq-ok id w r db' h in
      let (written, good) = write_reversal-eq-ok task (others db) w we in
      created no_row unpaid (rw same found) (rw same written) (rw same good)
  Outcome-create task no_row unpaid (err integrity_error) we h =
      let (found, same) = reload-eq-ok id (others db) r db' h in recovered no_row unpaid found same
  Outcome-create task no_row unpaid (err e) we h = cc

  pub reverse-eq-ok :
      reverse env id input op others db ≡ ok (r, db')
      → (task : WeighingTask) × IsActive id db task
        × (task.status ≡ WeighingStatus.completed)
        × Outcome task
  unfolding reverse
  reverse-eq-ok h =
      let (task, te, h1) = >>=-eq-ok (get_task_for_update id db) _ _ h in
      let (st, h2) = raise_if-eq-ok (not (task.status == WeighingStatus.completed)) _ _ _ h1 in
      (
        task,
        get_task_for_update-eq-ok id db task te,
        ground arith,
        by_existing task (reversal_of id db) refl h2,
      )
    where
      by_existing :
          (task : WeighingTask) (o : Option (Uuid × WeighingReversal))
          → reversal_of id db ≡ o
          → existing_or_created env id task input op others db o ≡ ok (r, db')
          → Outcome task
      by_existing task (some x) e h2 = existing (ground arith) (ground arith)
      by_existing task none e h2 =
          let (unpaid, h3) = raise_if-eq-ok (is_paid (billing_of id db)) _ _ _ h2 in
          Outcome-create task e unpaid _ refl h3
