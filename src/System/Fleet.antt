-- ===== src/System/Fleet.antt =====
-- A vehicle that has been weighed stays in the fleet.
use timber_ops.Prelude.{
  ◌≤◌, ◌≡◌, ◌∙◌, inl, inr, Bool, ◌==◌, nat_eq, some, none, List, lookup, insert, update, Table,
  count_where, count_where-insert, count_where-update, arith,
}
use timber_ops.Store.Rows.{Uuid, Vehicle, WeighingTask}
use timber_ops.Store.Db.{Db, Env}
use timber_ops.Master.Vehicles.{vehicle_history}
use timber_ops.System.Requests.{Request, run}
use timber_ops.Weighing.Tasks.{touched}
use timber_ops.System.Changes.{
  Change, IsMoved, IsKept, unchanged, vehicles_changed, customers_changed, task_created, task_moved,
  task_read, task_completed, fee_settled, task_reversed,
}
use timber_ops.System.Lifecycle.{Move-Evolves}
use timber_ops.System.Induction.{run_induction}

abbrev is_of : Uuid → WeighingTask → Bool
is_of k t = t.vehicle_id == k

-- Vehicle `k` stands in a table with the plate of `v`, and is not deleted.
pub record Drives (k : Uuid) (v : Vehicle) (vehicles : Table Vehicle) : Type 0 where
  pub row : Vehicle
  pub stands : lookup k vehicles ≡ some row
  pub plate : row.plate_number ≡ v.plate_number
  pub live : row.deleted_at ≡ none

-- That, and it has tasks.
abbrev pub IsInFleet : Uuid → Vehicle → Db → Type 0
IsInFleet k v db = (1 ≤ vehicle_history k db) × Drives k v db.vehicles

module _ (k : Uuid) (v : Vehicle) where
  moved-history :
      (env : Env) (i : Uuid) (t t' : WeighingTask) (db : Db)
      → IsMoved env i db t t'
      → count_where (is_of k) (update i (touched env t') db.tasks) ≡ count_where (is_of k) db.tasks
  moved-history env i t t' db m =
      let origin = (Move-Evolves env t t' m.move).origin in
      count_where-update (is_of k) i (touched env t') t db.tasks m.found
        (ground (arith, origin.vehicle))

  created-history :
      (i : Uuid) (t : WeighingTask) (db : Db)
      → 1 ≤ vehicle_history k db
      → 1 ≤ count_where (is_of k) (insert i t db.tasks)
  created-history i t db h = omega (arith, count_where-insert (is_of k) i t db.tasks)

  vehicles-Drives :
      (db : Db) (vehicles : Table Vehicle)
      → ((i : Uuid) (w : Vehicle) → lookup i db.vehicles ≡ some w → IsKept i db w vehicles)
      → IsInFleet k v db
      → Drives k v vehicles
  vehicles-Drives db vehicles keeps (used, d) =
      let kept = keeps k d.row d.stands in
      record {
        row = kept.row;
        stands = kept.stands;
        plate = kept.plate ∙ d.plate;
        live = elim kept.life [
          | inl same ↦ same ∙ d.live
          | inr nothing ↦ absurd (omega (arith, used, nothing))
        ];
      }

  Change-IsInFleet :
      (env : Env) (db db' : Db) → Change env db db' → IsInFleet k v db → IsInFleet k v db'
  Change-IsInFleet env db db' (unchanged e) h = rw e h
  Change-IsInFleet env db db' (vehicles_changed vehicles _ keeps _ e) h =
      rw e (h.0, vehicles-Drives db vehicles keeps h)
  Change-IsInFleet env db db' (customers_changed _ _ _ e) h = rw e h
  Change-IsInFleet env db db' (task_created t _ _ _ e) (some_, there) =
      rw e (created-history (env.uuid 0) t db some_, there)
  Change-IsInFleet env db db' (task_moved i t t' _ m _ _ e) (some_, there) =
      rw e (omega (arith, moved-history env i t t' db m, some_), there)
  Change-IsInFleet env db db' (task_read i t t' _ _ _ m _ _ e) (some_, there) =
      rw e (omega (arith, moved-history env i t t' db m, some_), there)
  Change-IsInFleet env db db' (task_completed i t _ _ _ m _ e) (some_, there) =
      rw e (omega (arith, moved-history env i t _ db m, some_), there)
  Change-IsInFleet env db db' (fee_settled _ _ _ _ _ _ _ _ e) h = rw e h
  Change-IsInFleet env db db' (task_reversed _ _ _ _ _ _ _ _ _ _ e) h = rw e h

-- A vehicle that is not deleted and has a task, deleted or not, has one, is not deleted and has the
-- same plate number after any requests.
pub run-IsInFleet :
    (k : Uuid) (v : Vehicle) (rs : List (Env × Request)) (db : Db)
    → IsInFleet k v db
    → IsInFleet k v (run rs db)
run-IsInFleet k v = run_induction (IsInFleet k v) (Change-IsInFleet k v)
