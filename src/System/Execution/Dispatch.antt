-- ===== src/System/Execution/Dispatch.antt =====
-- The changes of all requests.
use timber_ops.Prelude.{◌≡◌, refl, some, none, arith}
use timber_ops.Domain.Enums.{PaymentStatus}
use timber_ops.Domain.Errors.{Result, ok, err}
use timber_ops.Store.Db.{Db, Env}
use timber_ops.Billing.Payments.{mark_paid, waive}
use timber_ops.System.Requests.{Request, state, execute, step, after}
use timber_ops.System.Changes.{Change, unchanged}
use timber_ops.System.Execution.ReadingChanges.{
  record_tare-Change, record_gross-Change, record_reweigh-Change,
}
use timber_ops.System.Execution.TaskChanges.{
  create_task-Change, prepare_for_gross-Change, delete_task-Change, cancel_task-Change,
  complete_task-Change,
}
use timber_ops.System.Execution.FeeChanges.{transition-Change, reverse-Change}
use timber_ops.System.Execution.MasterChanges.{
  create_vehicle-Change, update_vehicle-Change, delete_vehicle-Change, create_customer-Change,
  update_customer-Change, delete_customer-Change,
}

pub state-eq-ok :
    {A : Type 0} (m : Result (A × Db)) (db' : Db) → state m ≡ ok db' → (a : A) × (m ≡ ok (a, db'))
state-eq-ok (ok (a, d)) db' h = (a, ground arith)
state-eq-ok (err e) db' h = cc

-- a call that returns an object beside the database
from_state :
    {A : Type 0} (env : Env) (db db' : Db) (m : Result (A × Db))
    → ((a : A) → m ≡ ok (a, db') → Change env db db')
    → state m ≡ ok db'
    → Change env db db'
from_state env db db' m change h = let (a, e) = state-eq-ok m db' h in change a e

pub execute-Change :
    (env : Env) (r : Request) (db db' : Db) → execute env r db ≡ ok db' → Change env db db'
unfolding execute mark_paid waive
execute-Change env (Request.post_vehicle input) db db' =
    from_state env db db' _ (create_vehicle-Change env db db' input)
execute-Change env (Request.patch_vehicle id input) db db' =
    from_state env db db' _ (update_vehicle-Change env db db' id input)
execute-Change env (Request.drop_vehicle id input op) db db' =
    delete_vehicle-Change env db db' id input (some op)
execute-Change env (Request.post_customer input) db db' =
    from_state env db db' _ (create_customer-Change env db db' input)
execute-Change env (Request.patch_customer id input) db db' =
    from_state env db db' _ (update_customer-Change env db db' id input)
execute-Change env (Request.drop_customer id input op) db db' =
    delete_customer-Change env db db' id input (some op)
execute-Change env (Request.post_task input op) db db' =
    from_state env db db' _ (create_task-Change env 0 (some op) db db' input)
execute-Change env (Request.tare id input op) db db' =
    from_state env db db' _ (λ a. record_tare-Change env id (some op) db db' a input)
execute-Change env (Request.wait_gross id) db db' =
    from_state env db db' _ (prepare_for_gross-Change env id none db db')
execute-Change env (Request.gross id input op) db db' =
    from_state env db db' _ (λ a. record_gross-Change env id (some op) db db' a input)
execute-Change env (Request.reweigh id input op) db db' =
    from_state env db db' _ (λ a. record_reweigh-Change env id (some op) db db' a input)
execute-Change env (Request.complete id op) db db' =
    from_state env db db' _ (complete_task-Change env id (some op) db db')
execute-Change env (Request.drop_task id input op) db db' =
    delete_task-Change env id (some op) db db' input
execute-Change env (Request.cancel id input op) db db' =
    from_state env db db' _ (cancel_task-Change env id (some op) db db' input)
execute-Change env (Request.pay id op) db db' =
    from_state env db db' _ (transition-Change env id op db db' PaymentStatus.paid "BILLING_PAID")
execute-Change env (Request.forgive id op) db db' =
    from_state env db db' _
      (transition-Change env id op db db' PaymentStatus.waived "BILLING_WAIVED")
execute-Change env (Request.undo id input op) db db' =
    from_state env db db' _ (reverse-Change env id op db db' input)

-- A request, returning or raising, makes one of the changes.
pub step-Change : (env : Env) (r : Request) (db : Db) → Change env db (step (env, r) db)
unfolding step
step-Change env r db = by_outcome (execute env r db) (execute-Change env r db)
  where
    by_outcome :
        (m : Result Db) → ((db' : Db) → m ≡ ok db' → Change env db db') → Change env db (after db m)
    by_outcome (ok db') change = change db' refl
    by_outcome (err e) change = unchanged refl
