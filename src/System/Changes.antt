-- ===== src/System/Changes.antt =====
-- What a request that returns has done to the database, table by table.
use timber_ops.Prelude.{◌≡◌, ◌≢◌, ◌⊎◌, some, none, false, Table, lookup, insert, update}
use timber_ops.Domain.Enums.{PaymentStatus, WeighingStatus, WeightResult}
use timber_ops.Domain.Weighing.{zero_tons}
use timber_ops.Store.Rows.{
  Uuid, Vehicle, Customer, WeighingTask, WeighingRecord, BillingRecord, WeighingReversal, AuditLog,
}
use timber_ops.Store.Db.{Db, Env}
use timber_ops.Billing.Fees.{billing_of}
use timber_ops.Billing.Payments.{reversal_of}
use timber_ops.Reversal.{is_paid}
use timber_ops.Weighing.Tasks.{next_sequence, touched}
use timber_ops.Weighing.Lifecycle.{with_completion}
use timber_ops.Master.Vehicles.{vehicle_history}
use timber_ops.System.Moves.{Move}

-- A row that was added at the end of a table, or none.
pub data Grows {ℓ} {V : Type ℓ} (t t' : Table V) : Type ℓ where
  same : t' ≡ t → Grows t t'
  more : (k : Uuid) (v : V) → t' ≡ insert k v t → Grows t t'

-- A reading of task `id`, as `_append_record` numbers it.
pub record IsNextReading (env : Env) (id : Uuid) (db : Db) (r : WeighingRecord) : Type 0 where
  pub of_task : r.weighing_task_id ≡ id
  pub numbered : r.sequence_no ≡ next_sequence id db

-- The task that a call was about: it stands in the table, not deleted, and moves.
pub record IsMoved (env : Env) (id : Uuid) (db : Db) (t t' : WeighingTask) : Type 0 where
  pub found : lookup id db.tasks ≡ some t
  pub live : t.deleted_at ≡ none
  pub move : Move env.now t t'

-- A new task.
pub record IsNew (t : WeighingTask) : Type 0 where
  pub waits : t.status ≡ WeighingStatus.wait_tare
  pub pending : t.weight_result ≡ WeightResult.pending
  pub no_tare : t.tare_weight_tons ≡ none
  pub no_gross : t.gross_weight_tons ≡ none
  pub no_net : t.net_weight_tons ≡ none
  pub not_completed : t.completed_at ≡ none
  pub zero_excess : t.overweight_tons ≡ zero_tons
  pub first_version : t.version ≡ 1

-- The fees once task `id` is completed: they hold one already, or get one.
pub data IsFeeOf (env : Env) (id vehicle_id : Uuid) (db : Db) (fees : Table BillingRecord)
    : Type 0 where
  there :
      (b : Uuid × BillingRecord)
      → billing_of id db ≡ some b
      → fees ≡ db.billing_records
      → IsFeeOf env id vehicle_id db fees
  billed :
      (b : BillingRecord)
      → billing_of id db ≡ none
      → b.weighing_task_id ≡ id
      → b.vehicle_id ≡ vehicle_id
      → b.payment_status ≡ PaymentStatus.unpaid
      → fees ≡ insert (env.uuid 0) b db.billing_records
      → IsFeeOf env id vehicle_id db fees

-- What becomes of a vehicle: its row and plate stay, and one with tasks is not deleted.
pub record IsKept (k : Uuid) (db : Db) (v : Vehicle) (vehicles : Table Vehicle) : Type 0 where
  pub row : Vehicle
  pub stands : lookup k vehicles ≡ some row
  pub plate : row.plate_number ≡ v.plate_number
  pub life : (row.deleted_at ≡ v.deleted_at) ⊎ (vehicle_history k db ≡ 0)

-- One constructor for each kind of change. `logs` is the audit log after it.
pub data Change (env : Env) (db db' : Db) : Type 0 where
  unchanged : db' ≡ db → Change env db db'
  vehicles_changed :
      (vehicles : Table Vehicle) (logs : Table AuditLog)
      → ((k : Uuid) (v : Vehicle) → lookup k db.vehicles ≡ some v → IsKept k db v vehicles)
      → Grows db.audit_logs logs
      → db' ≡ record db { vehicles = vehicles; audit_logs = logs }
      → Change env db db'
  customers_changed :
      (customers : Table Customer) (logs : Table AuditLog)
      → Grows db.audit_logs logs
      → db' ≡ record db { customers = customers; audit_logs = logs }
      → Change env db db'
  task_created :
      (t : WeighingTask) (k : Uuid) (log : AuditLog)
      → IsNew t
      → db' ≡ record db {
        tasks = insert (env.uuid 0) t db.tasks;
        audit_logs = insert k log db.audit_logs;
      }
      → Change env db db'
  task_moved :
      (id : Uuid) (t t' : WeighingTask) (logs : Table AuditLog)
      → IsMoved env id db t t'
      → (t'.status ≢ WeighingStatus.completed)
      → Grows db.audit_logs logs
      → db' ≡ record db { tasks = update id (touched env t') db.tasks; audit_logs = logs }
      → Change env db db'
  task_read :
      (id : Uuid) (t t' : WeighingTask) (r : WeighingRecord) (k : Uuid) (log : AuditLog)
      → IsMoved env id db t t'
      → (t'.status ≢ WeighingStatus.completed)
      → IsNextReading env id db r
      → db' ≡ record db {
        tasks = update id (touched env t') db.tasks;
        records = insert (env.uuid 0) r db.records;
        audit_logs = insert k log db.audit_logs;
      }
      → Change env db db'
  task_completed :
      (id : Uuid) (t : WeighingTask) (fees : Table BillingRecord) (k : Uuid) (log : AuditLog)
      → IsMoved env id db t (with_completion env.now t)
      → IsFeeOf env id t.vehicle_id db fees
      → db' ≡ record db {
        tasks = update id (touched env (with_completion env.now t)) db.tasks;
        billing_records = fees;
        audit_logs = insert k log db.audit_logs;
      }
      → Change env db db'
  fee_settled :
      (id : Uuid) (b : BillingRecord) (target : PaymentStatus) (k : Uuid) (log : AuditLog)
      → lookup id db.billing_records ≡ some b
      → reversal_of b.weighing_task_id db ≡ none
      → b.payment_status ≡ PaymentStatus.unpaid
      → db' ≡ record db {
        billing_records = update id (record b { payment_status = target }) db.billing_records;
        audit_logs = insert k log db.audit_logs;
      }
      → Change env db db'
  task_reversed :
      (id : Uuid) (t : WeighingTask) (r : WeighingReversal) (k : Uuid) (log : AuditLog)
      → lookup id db.tasks ≡ some t
      → t.status ≡ WeighingStatus.completed
      → reversal_of id db ≡ none
      → is_paid (billing_of id db) ≡ false
      → r.original_task_id ≡ id
      → db' ≡ record db {
        reversals = insert (env.uuid 0) r db.reversals;
        audit_logs = insert k log db.audit_logs;
      }
      → Change env db db'
