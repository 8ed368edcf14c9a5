-- ===== src/Tests/Fixtures.antt =====
-- A small database, and a day of requests on it.
use timber_ops.Prelude.{ℕ, ◌+◌, ◌*◌, some, none, List, [], ◌∷◌, true}
use timber_ops.Prelude.Int.{pos}
use timber_ops.Domain.Enums.{
  VehicleType, CargoType, WeighingDirection, WeighingStatus, WeightResult, PaymentStatus,
}
use timber_ops.Weighing.Lifecycle.{with_completion}
use timber_ops.Domain.Decimal.{Decimal}
use timber_ops.Store.Rows.{
  Vehicle, User, BillingRule, WeighingTask, BillingRecord, WeighingReversal,
}
use timber_ops.Store.Db.{Db, Env}
use timber_ops.Weighing.Inputs.{
  WeighingTaskCreate, TareWeightInput, GrossWeightInput, ReweighInput, DeleteEntityInput,
}
use timber_ops.Reversal.{WeighingReversalCreate}
use timber_ops.System.Requests.{Request}

abbrev pub truck : Vehicle
truck = record {
  plate_number = "A-100";
  driver_name = some "Li";
  driver_phone = none;
  vehicle_type = some VehicleType.large;
  vehicle_type_legacy = none;
  allowed_gross_weight_tons = pos 49000;
  remark = none;
  deleted_at = none;
  created_at = 1;
  updated_at = 1;
}

abbrev pub clerk : User
clerk = record {
  username = "clerk";
  password_hash = "";
  real_name = "Clerk";
  is_active = true;
  created_at = 1;
  updated_at = 1;
}

abbrev rule_at : ℕ → ℕ → BillingRule
rule_at at fee = record {
  vehicle_type = VehicleType.large;
  fee_amount = pos fee;
  currency = "CNY";
  effective_time = at;
  created_at = 1;
}

-- Two rules, of which the second takes effect at time 5.
abbrev pub start : Db
start = record {
  vehicles = (1, truck) ∷ [];
  customers = [];
  users = (2, clerk) ∷ [];
  tasks = [];
  records = [];
  billing_rules = (3, rule_at 1 1000) ∷ (4, rule_at 5 1500) ∷ [];
  billing_records = [];
  reversals = [];
  audit_logs = [];
}

-- The surroundings of a request at a time.
abbrev pub env_at : ℕ → Env
env_at n = record { now = n; uuid = λ i. 10 * n + i; task_no = "W1" }

abbrev pub weight : ℕ → Decimal
weight n = record { coefficient = pos n; places = 3 }

abbrev pub tare_input : TareWeightInput
tare_input = record { weight_tons = weight 15000; remark = none }

abbrev pub gross_input : ℕ → GrossWeightInput
gross_input n = record { weight_tons = weight n; remark = none }

abbrev pub reweigh_input : ReweighInput
reweigh_input = record { weight_tons = weight 48000; remark = "unloaded" }

abbrev pub task_input : WeighingTaskCreate
task_input = record {
  vehicle_id = 1;
  customer_id = none;
  weighing_direction = WeighingDirection.outbound;
  cargo_type = CargoType.timber;
  cargo_name = none;
  cargo_remark = none;
}

abbrev pub undo_input : WeighingReversalCreate
undo_input = record { reason = "wrong vehicle" }

abbrev pub removal : DeleteEntityInput
removal = record { reason = "by mistake" }

-- A task that is overweight at first: its id is 20, its fee record's 70.
abbrev pub weighed : List (Env × Request)
weighed =
    (env_at 2, Request.post_task task_input 2)
    ∷ (env_at 3, Request.tare 20 tare_input 2)
    ∷ (env_at 4, Request.wait_gross 20)
    ∷ (env_at 5, Request.gross 20 (gross_input 50000) 2)
    ∷ (env_at 6, Request.reweigh 20 reweigh_input 2)
    ∷ []

abbrev pub completion : List (Env × Request)
completion = (env_at 7, Request.complete 20 2) ∷ []

abbrev pub payment : List (Env × Request)
payment =
    (env_at 8, Request.pay 70 2)
    ∷ (env_at 9, Request.undo 20 undo_input 2)
    ∷ (env_at 10, Request.drop_vehicle 1 removal 2)
    ∷ []

abbrev pub undoing : List (Env × Request)
undoing = (env_at 8, Request.undo 20 undo_input 2) ∷ (env_at 9, Request.pay 70 2) ∷ []

-- A task that waits for its gross weight, and what becomes of it.
abbrev pub waiting_task : WeighingTask
waiting_task = record {
  task_no = "W1";
  vehicle_id = 1;
  customer_id = none;
  weighing_direction = WeighingDirection.outbound;
  cargo_type = CargoType.timber;
  cargo_name = none;
  cargo_remark = none;
  driver_name_snapshot = some "Li";
  driver_phone_snapshot = none;
  tare_weight_tons = some (pos 15000);
  gross_weight_tons = none;
  net_weight_tons = none;
  allowed_gross_weight_tons = pos 49000;
  overweight_tons = pos 0;
  status = WeighingStatus.wait_gross;
  weight_result = WeightResult.pending;
  tare_time = some 3;
  gross_time = none;
  completed_at = none;
  created_by = some 2;
  version = 3;
  deleted_at = none;
  deleted_by = none;
  delete_reason = none;
  created_at = 2;
  updated_at = 4;
}

abbrev pub weighed_task : WeighingTask
weighed_task = record waiting_task {
  gross_weight_tons = some (pos 48000);
  net_weight_tons = some (pos 33000);
  status = WeighingStatus.gross_completed;
  weight_result = WeightResult.normal;
  gross_time = some 6;
  version = 5;
}

abbrev pub done_task : WeighingTask
done_task = with_completion 7 weighed_task

abbrev pub fee : BillingRecord
fee = record {
  weighing_task_id = 20;
  vehicle_id = 1;
  vehicle_type_snapshot = VehicleType.large;
  fee_amount = pos 1500;
  payment_status = PaymentStatus.unpaid;
  created_at = 7;
}

abbrev pub reversal : WeighingReversal
reversal = record {
  original_task_id = 20;
  reason = "wrong vehicle";
  created_by = some 2;
  billing_record_id = some 70;
  billing_payment_status_snapshot = some PaymentStatus.unpaid;
  billing_fee_amount_snapshot = some (pos 1500);
  created_at = 8;
}

abbrev pub waiting_db : Db
waiting_db = record start { tasks = (20, waiting_task) ∷ [] }

abbrev pub weighed_db : Db
weighed_db = record start { tasks = (20, weighed_task) ∷ [] }

abbrev pub done_db : Db
done_db = record start { tasks = (20, done_task) ∷ []; billing_records = (70, fee) ∷ [] }

abbrev pub reversed_db : Db
reversed_db = record done_db { reversals = (80, reversal) ∷ [] }

-- The vehicle is deleted.
abbrev pub scrapped_db : Db
scrapped_db = record start { vehicles = (1, record truck { deleted_at = some 2 }) ∷ [] }
