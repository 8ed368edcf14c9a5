-- ===== src/System/History.antt =====
-- Readings, reversals and audit entries are only ever added.
use timber_ops.Prelude.{◌≡◌, some, List, Table, lookup, lookup-insert_old}
use timber_ops.Store.Rows.{Uuid, WeighingRecord, WeighingReversal, AuditLog}
use timber_ops.Store.Db.{Db, Env}
use timber_ops.System.Requests.{Request, run}
use timber_ops.System.Changes.{
  Change, Grows, same, more, unchanged, vehicles_changed, customers_changed, task_created,
  task_moved, task_read, task_completed, fee_settled, task_reversed,
}
use timber_ops.System.Induction.{run_induction}

Grows-keeps :
    {V : Type 0} (t t' : Table V) (k : Uuid) (v : V)
    → Grows t t'
    → lookup k t ≡ some v
    → lookup k t' ≡ some v
Grows-keeps t t' k v (same e) h = rw e h
Grows-keeps t t' k v (more i w e) h = rw e (lookup-insert_old k i w v t h)

module _ (k : Uuid) where
  record-kept :
      (r : WeighingRecord) (env : Env) (db db' : Db)
      → Change env db db'
      → lookup k db.records ≡ some r
      → lookup k db'.records ≡ some r
  record-kept r env db db' (unchanged e) h = rw e h
  record-kept r env db db' (task_read _ _ _ n _ _ _ _ _ e) h =
      rw e (lookup-insert_old k (env.uuid 0) n r db.records h)
  record-kept r env db db' (vehicles_changed _ _ _ _ e) h = rw e h
  record-kept r env db db' (customers_changed _ _ _ e) h = rw e h
  record-kept r env db db' (task_created _ _ _ _ e) h = rw e h
  record-kept r env db db' (task_moved _ _ _ _ _ _ _ e) h = rw e h
  record-kept r env db db' (task_completed _ _ _ _ _ _ _ e) h = rw e h
  record-kept r env db db' (fee_settled _ _ _ _ _ _ _ _ e) h = rw e h
  record-kept r env db db' (task_reversed _ _ _ _ _ _ _ _ _ _ e) h = rw e h

  reversal-kept :
      (r : WeighingReversal) (env : Env) (db db' : Db)
      → Change env db db'
      → lookup k db.reversals ≡ some r
      → lookup k db'.reversals ≡ some r
  reversal-kept r env db db' (unchanged e) h = rw e h
  reversal-kept r env db db' (task_read _ _ _ _ _ _ _ _ _ e) h = rw e h
  reversal-kept r env db db' (vehicles_changed _ _ _ _ e) h = rw e h
  reversal-kept r env db db' (customers_changed _ _ _ e) h = rw e h
  reversal-kept r env db db' (task_created _ _ _ _ e) h = rw e h
  reversal-kept r env db db' (task_moved _ _ _ _ _ _ _ e) h = rw e h
  reversal-kept r env db db' (task_completed _ _ _ _ _ _ _ e) h = rw e h
  reversal-kept r env db db' (fee_settled _ _ _ _ _ _ _ _ e) h = rw e h
  reversal-kept r env db db' (task_reversed _ _ n _ _ _ _ _ _ _ e) h =
      rw e (lookup-insert_old k (env.uuid 0) n r db.reversals h)

  log-kept :
      (r : AuditLog) (env : Env) (db db' : Db)
      → Change env db db'
      → lookup k db.audit_logs ≡ some r
      → lookup k db'.audit_logs ≡ some r
  log-kept r env db db' (unchanged e) h = rw e h
  log-kept r env db db' (vehicles_changed _ logs _ g e) h =
      rw e (Grows-keeps db.audit_logs logs k r g h)
  log-kept r env db db' (customers_changed _ logs g e) h =
      rw e (Grows-keeps db.audit_logs logs k r g h)
  log-kept r env db db' (task_created _ i l _ e) h =
      rw e (lookup-insert_old k i l r db.audit_logs h)
  log-kept r env db db' (task_moved _ _ _ logs _ _ g e) h =
      rw e (Grows-keeps db.audit_logs logs k r g h)
  log-kept r env db db' (task_read _ _ _ _ i l _ _ _ e) h =
      rw e (lookup-insert_old k i l r db.audit_logs h)
  log-kept r env db db' (task_completed _ _ _ i l _ _ e) h =
      rw e (lookup-insert_old k i l r db.audit_logs h)
  log-kept r env db db' (fee_settled _ _ _ i l _ _ _ e) h =
      rw e (lookup-insert_old k i l r db.audit_logs h)
  log-kept r env db db' (task_reversed _ _ _ i l _ _ _ _ _ e) h =
      rw e (lookup-insert_old k i l r db.audit_logs h)

-- No request changes or removes a scale reading, a reversal or an audit entry.
pub run_append_only :
    (k : Uuid) (rs : List (Env × Request)) (db : Db)
    → ((r : WeighingRecord) → lookup k db.records ≡ some r → lookup k (run rs db).records ≡ some r)
      × ((r : WeighingReversal)
          → lookup k db.reversals ≡ some r
          → lookup k (run rs db).reversals ≡ some r)
      × ((r : AuditLog)
          → lookup k db.audit_logs ≡ some r
          → lookup k (run rs db).audit_logs ≡ some r)
run_append_only k rs db = (
  λ r. run_induction (λ d. lookup k d.records ≡ some r) (record-kept k r) rs db,
  λ r. run_induction (λ d. lookup k d.reversals ≡ some r) (reversal-kept k r) rs db,
  λ r. run_induction (λ d. lookup k d.audit_logs ≡ some r) (log-kept k r) rs db,
)
