-- ===== src/Store/Db.antt =====
-- The database: one table for each model, and what one request draws from its surroundings.
use timber_ops.Prelude.{ℕ, String, Table}
use timber_ops.Store.Rows.{
  Uuid, Time, Vehicle, Customer, User, WeighingTask, WeighingRecord, BillingRule, BillingRecord,
  WeighingReversal, AuditLog,
}

pub record Db : Type 0 where
  pub vehicles : Table Vehicle
  pub customers : Table Customer
  pub users : Table User
  pub tasks : Table WeighingTask
  pub records : Table WeighingRecord
  pub billing_rules : Table BillingRule
  pub billing_records : Table BillingRecord
  pub reversals : Table WeighingReversal
  pub audit_logs : Table AuditLog

-- The clock of a request, the ids that `uuid4` gives it in turn, and the text of a new task number.
pub record Env : Type 0 where
  pub now : Time
  pub uuid : ℕ → Uuid
  pub task_no : String
