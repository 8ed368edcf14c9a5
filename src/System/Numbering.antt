-- ===== src/System/Numbering.antt =====
-- The readings of a task are numbered 1, 2, 3, ... in the order they were taken.
use timber_ops.Prelude.{
  suc, ◌≡◌, ◌∙◌, subst, List, [], ◌∷◌, ◌++◌, map, Bool, ◌==◌, nat_eq, length, length-append, where_,
  where_-append, map-append, maximum-up_to, up_to, inl, inr, Bool-cases, insert, append-nil,
  nat_beq_iff, arith,
}
use timber_ops.Store.Rows.{Uuid, WeighingRecord}
use timber_ops.Store.Db.{Db, Env}
use timber_ops.Weighing.Tasks.{readings, sequence, next_sequence}
use timber_ops.System.Requests.{Request, run}
use timber_ops.System.Changes.{
  Change, IsNextReading, unchanged, vehicles_changed, customers_changed, task_created, task_moved,
  task_read, task_completed, fee_settled, task_reversed,
}
use timber_ops.System.Induction.{run_induction}

-- Readings with these sequence numbers, in this order.
abbrev pub AreNumbered : List (Uuid × WeighingRecord) → Type 0
AreNumbered xs = map sequence xs ≡ up_to (length xs)

abbrev pub IsNumbered : Uuid → Db → Type 0
IsNumbered id db = AreNumbered (readings id db)

next_sequence-IsNumbered :
    (id : Uuid) (db : Db) → IsNumbered id db → next_sequence id db ≡ suc (length (readings id db))
unfolding next_sequence
next_sequence-IsNumbered id db h = rw (h, maximum-up_to (length (readings id db))) (omega arith)

abbrev of_task : Uuid → Uuid × WeighingRecord → Bool
of_task id (_, r) = r.weighing_task_id == id

-- once a reading with the next number is added
appended-AreNumbered :
    (xs : List (Uuid × WeighingRecord)) (x : Uuid × WeighingRecord)
    → AreNumbered xs
    → sequence x ≡ suc (length xs)
    → AreNumbered (xs ++ x ∷ [])
appended-AreNumbered xs x h n =
    ground (arith, map-append sequence xs (x ∷ []), length-append xs (x ∷ []))

module _ (id : Uuid) where
  read-IsNumbered :
      (env : Env) (i : Uuid) (k : Uuid) (r : WeighingRecord) (db : Db)
      → IsNextReading env i db r
      → IsNumbered id db
      → AreNumbered (where_ (of_task id) (insert k r db.records))
  read-IsNumbered env i k r db n h = elim (Bool-cases (r.weighing_task_id == id)) [
    | inl same ↦
        let key : id ≡ i = ground (arith, n.of_task, nat_beq_iff r.weighing_task_id id) in
        let number : r.sequence_no ≡ suc (length (readings id db)) =
          n.numbered
          ∙ subst (λ j. next_sequence j db ≡ suc (length (readings id db))) key
              (next_sequence-IsNumbered id db h) in
        rw (where_-append (of_task id) db.records ((k, r) ∷ []), same)
          (appended-AreNumbered (readings id db) (k, r) h number)
    | inr other ↦
        rw (where_-append (of_task id) db.records ((k, r) ∷ []), other)
          (ground (arith, append-nil (readings id db)))
  ]

  Change-IsNumbered :
      (env : Env) (db db' : Db) → Change env db db' → IsNumbered id db → IsNumbered id db'
  Change-IsNumbered env db db' (unchanged e) h = rw e h
  Change-IsNumbered env db db' (vehicles_changed _ _ _ _ e) h = rw e h
  Change-IsNumbered env db db' (customers_changed _ _ _ e) h = rw e h
  Change-IsNumbered env db db' (task_created _ _ _ _ e) h = rw e h
  Change-IsNumbered env db db' (task_moved _ _ _ _ _ _ _ e) h = rw e h
  Change-IsNumbered env db db' (task_read i _ _ r _ _ _ _ n e) h =
      rw e (read-IsNumbered env i (env.uuid 0) r db n h)
  Change-IsNumbered env db db' (task_completed _ _ _ _ _ _ _ e) h = rw e h
  Change-IsNumbered env db db' (fee_settled _ _ _ _ _ _ _ _ e) h = rw e h
  Change-IsNumbered env db db' (task_reversed _ _ _ _ _ _ _ _ _ _ e) h = rw e h

-- If the readings of a task are numbered 1, 2, 3, ... in the order they stand in the table (as
-- those of a task without readings are), they still are after any requests.
pub run-IsNumbered :
    (id : Uuid) (rs : List (Env × Request)) (db : Db) → IsNumbered id db → IsNumbered id (run rs db)
run-IsNumbered id = run_induction (IsNumbered id) (Change-IsNumbered id)
