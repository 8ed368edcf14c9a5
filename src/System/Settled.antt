-- ===== src/System/Settled.antt =====
-- Completed, cancelled and deleted tasks do not change.
use timber_ops.Prelude.{
  ◌≡◌, ◌≢◌, ◌⊎◌, inl, inr, Bool-cases, some, none, List, lookup, nat_beq, update, same_row, subst,
  lookup-update_ne, lookup-insert_old, arith,
}
use timber_ops.Domain.Enums.{WeighingStatus}
use timber_ops.Store.Rows.{Uuid, WeighingTask}
use timber_ops.Store.Db.{Db, Env}
use timber_ops.System.Requests.{Request, run}
use timber_ops.System.Moves.{Move, tare, prepare, gross, complete, cancel, delete}
use timber_ops.System.Changes.{
  Change, IsMoved, unchanged, vehicles_changed, customers_changed, task_created, task_moved,
  task_read, task_completed, fee_settled, task_reversed,
}
use timber_ops.System.Induction.{run_induction}

abbrev pub IsSettled : WeighingTask → Type 0
IsSettled t =
    (t.status ≡ WeighingStatus.completed)
    ⊎ (t.status ≡ WeighingStatus.cancelled)
    ⊎ (t.deleted_at ≢ none)

pub moved-not-IsSettled :
    (env : Env) (id : Uuid) (db : Db) (t t' : WeighingTask) → IsMoved env id db t t' → ¬ IsSettled t
moved-not-IsSettled env id db t t' m s = by_move m.move
  where
    by_move : Move env.now t t' → ⊥
    by_move (tare _ e _) = ground (arith, m.live)
    by_move (prepare e _) = ground (arith, m.live)
    by_move (gross _ _ e _ _ _) = ground (arith, m.live)
    by_move (complete e _ _) = ground (arith, m.live)
    by_move (cancel e _) = ground (arith, m.live)
    by_move (delete _ _ e _) = ground (arith, m.live)

module _ (id : Uuid) (t : WeighingTask) (s : IsSettled t) where
  -- an update of a task that moves is not one of this task
  update_keeps :
      (env : Env) (db : Db) (i : Uuid) (u u' w : WeighingTask)
      → IsMoved env i db u u'
      → lookup id db.tasks ≡ some t
      → lookup id (update i w db.tasks) ≡ some t
  update_keeps env db i u u' w m h = elim (Bool-cases (nat_beq id i)) [
    | inl e ↦
        let same = same_row id i db.tasks t u e h m.found in
        absurd (moved-not-IsSettled env i db u u' m (subst IsSettled same s))
    | inr ne ↦ ground (arith, lookup-update_ne id i w db.tasks)
  ]

  Change-keeps :
      (env : Env) (db db' : Db)
      → Change env db db'
      → lookup id db.tasks ≡ some t
      → lookup id db'.tasks ≡ some t
  Change-keeps env db db' (unchanged e) h = rw e h
  Change-keeps env db db' (vehicles_changed _ _ _ _ e) h = rw e h
  Change-keeps env db db' (customers_changed _ _ _ e) h = rw e h
  Change-keeps env db db' (task_created u _ _ _ e) h =
      rw e (lookup-insert_old id (env.uuid 0) u t db.tasks h)
  Change-keeps env db db' (task_moved i u u' _ m _ _ e) h = rw e (update_keeps env db i u u' _ m h)
  Change-keeps env db db' (task_read i u u' _ _ _ m _ _ e) h =
      rw e (update_keeps env db i u u' _ m h)
  Change-keeps env db db' (task_completed i u _ _ _ m _ e) h =
      rw e (update_keeps env db i u _ _ m h)
  Change-keeps env db db' (fee_settled _ _ _ _ _ _ _ _ e) h = rw e h
  Change-keeps env db db' (task_reversed _ _ _ _ _ _ _ _ _ _ e) h = rw e h

-- The row of a task that is completed, cancelled or deleted is the same after any requests.
pub run-settled :
    (id : Uuid) (t : WeighingTask) (rs : List (Env × Request)) (db : Db)
    → IsSettled t
    → lookup id db.tasks ≡ some t
    → lookup id (run rs db).tasks ≡ some t
run-settled id t rs db s =
    run_induction (λ d. lookup id d.tasks ≡ some t) (Change-keeps id t s) rs db
