-- ===== src/System/Deletions.antt =====
-- No completed task is deleted.
use timber_ops.Prelude.{
  ◌≡◌, refl, Bool, true, not, ◌||◌, ◌==◌, is_none, none, List, [], ◌∷◌, all, insert, update, Table,
  arith,
}
use timber_ops.Domain.Enums.{WeighingStatus, weighing_status_eq}
use timber_ops.Store.Rows.{Uuid, Time, WeighingTask}
use timber_ops.Store.Db.{Db, Env}
use timber_ops.Weighing.Tasks.{touched}
use timber_ops.Weighing.Lifecycle.{is_deletable}
use timber_ops.System.Requests.{Request, run}
use timber_ops.System.Moves.{Move, tare, prepare, gross, complete, cancel, delete}
use timber_ops.System.Changes.{
  Change, IsMoved, unchanged, vehicles_changed, customers_changed, task_created, task_moved,
  task_read, task_completed, fee_settled, task_reversed,
}
use timber_ops.System.Induction.{run_induction}

abbrev pub is_kept : Uuid × WeighingTask → Bool
is_kept (_, t) = not (t.status == WeighingStatus.completed) || is_none t.deleted_at

abbrev pub AreKept : Db → Type 0
AreKept db = all is_kept db.tasks ≡ true

open_of_deletable :
    (s : WeighingStatus) → is_deletable s ≡ true → not (s == WeighingStatus.completed) ≡ true
open_of_deletable WeighingStatus.wait_tare h = refl
open_of_deletable WeighingStatus.tare_completed h = refl
open_of_deletable WeighingStatus.wait_gross h = refl
open_of_deletable WeighingStatus.gross_completed h = refl
open_of_deletable WeighingStatus.completed h = cc
open_of_deletable WeighingStatus.cancelled h = refl

Move-is_kept :
    (now : Time) (k : Uuid) (t t' : WeighingTask)
    → t.deleted_at ≡ none
    → Move now t t'
    → is_kept (k, t') ≡ true
Move-is_kept now k t t' l (tare w e d) = rw d ground (arith, l)
Move-is_kept now k t t' l (prepare e d) = rw d ground (arith, l)
Move-is_kept now k t t' l (gross w c e te a d) = rw d ground (arith, l)
Move-is_kept now k t t' l (complete e n d) = rw d ground (arith, l)
Move-is_kept now k t t' l (cancel e d) = rw d ground (arith, l)
Move-is_kept now k t t' l (delete op input e d) = rw d ground (arith, open_of_deletable t.status e)

all-insert :
    (k : Uuid) (t : WeighingTask) (tasks : Table WeighingTask)
    → all is_kept tasks ≡ true
    → is_kept (k, t) ≡ true
    → all is_kept (insert k t tasks) ≡ true
all-insert k t [] h i = ground (arith, i)
all-insert k t (x ∷ tasks) h i = ground (arith, all-insert k t tasks, h, i)

all-update :
    (k : Uuid) (t : WeighingTask) (tasks : Table WeighingTask)
    → all is_kept tasks ≡ true
    → is_kept (k, t) ≡ true
    → all is_kept (update k t tasks) ≡ true
all-update k t [] h i = refl
all-update k t (x ∷ tasks) h i = ground (arith, all-update k t tasks, h, i)

moved-AreKept :
    (env : Env) (db : Db) (id : Uuid) (t t' : WeighingTask)
    → IsMoved env id db t t'
    → AreKept db
    → all is_kept (update id (touched env t') db.tasks) ≡ true
moved-AreKept env db id t t' m h =
    all-update id (touched env t') db.tasks h (Move-is_kept env.now id t t' m.live m.move)

Change-AreKept : (env : Env) (db db' : Db) → Change env db db' → AreKept db → AreKept db'
Change-AreKept env db db' (unchanged e) h = rw e h
Change-AreKept env db db' (vehicles_changed _ _ _ _ e) h = rw e h
Change-AreKept env db db' (customers_changed _ _ _ e) h = rw e h
Change-AreKept env db db' (task_created t _ _ n e) h =
    rw e (all-insert (env.uuid 0) t db.tasks h (ground (arith, n.waits)))
Change-AreKept env db db' (task_moved i t t' _ m _ _ e) h = rw e (moved-AreKept env db i t t' m h)
Change-AreKept env db db' (task_read i t t' _ _ _ m _ _ e) h =
    rw e (moved-AreKept env db i t t' m h)
Change-AreKept env db db' (task_completed i t _ _ _ m _ e) h = rw e (moved-AreKept env db i t _ m h)
Change-AreKept env db db' (fee_settled _ _ _ _ _ _ _ _ e) h = rw e h
Change-AreKept env db db' (task_reversed _ _ _ _ _ _ _ _ _ _ e) h = rw e h

pub run-AreKept : (rs : List (Env × Request)) (db : Db) → AreKept db → AreKept (run rs db)
run-AreKept = run_induction AreKept Change-AreKept
