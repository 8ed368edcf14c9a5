-- ===== src/Analytics/Lookups.antt =====
-- `get_vehicle_weighing_history` and `get_weighing_task_detail` of AnalyticsService.
use timber_ops.Prelude.{
  ℕ, String, Bool, not, ◌&&◌, ◌||◌, ◌==◌, nat_eq, string_eq, leb, ltb, is_none, Option, none, some,
  List, map, where_, first, lookup,
}
use timber_ops.Prelude.Sorting.{order_by}
use timber_ops.Domain.Text.{strip}
use timber_ops.Domain.Enums.{CargoType, WeighingStatus, WeightResult, WeightType, WeightSource}
use timber_ops.Domain.Decimal.{Tons}
use timber_ops.Domain.Errors.{Result, ok, value_error, ◌>>◌, raise_if}
use timber_ops.Store.Rows.{
  Uuid, Time, WeighingTask, WeighingRecord, WeighingReversal, Vehicle, Customer, User,
}
use timber_ops.Store.Db.{Db}
use timber_ops.Billing.Payments.{reversal_of}
use timber_ops.Weighing.Tasks.{readings}
use timber_ops.Weighing.Queries.{record_le}
use timber_ops.Reports.Dashboard.{take}

-- `a or b` of columns that may be NULL, also SQL's COALESCE.
abbrev coalesce {ℓ} : {A : Type ℓ} → Option A → Option A → Option A
coalesce none b = b
coalesce (some a) b = some a

abbrev time_or : Option Time → Time → Time
time_or none at = at
time_or (some t) at = t

abbrev event_time : WeighingTask → Time
event_time t = time_or (coalesce t.completed_at t.gross_time) t.created_at

-- The dictionaries. Decimals and times are kept as what their texts show.
record HistoryItem : Type 0 where
  pub task_no : String
  pub cargo_type : CargoType
  pub final_net_weight_tons : Option Tons
  pub status : WeighingStatus
  pub weight_result : WeightResult
  pub reversed : Bool
  pub reversal_reason : Option String
  pub time : Time

record VehicleHistory : Type 0 where
  pub plate_number : String
  pub tasks : List HistoryItem

abbrev reason_of : Option (Uuid × WeighingReversal) → Option String
reason_of none = none
reason_of (some r) = some r.1.reason

abbrev history_item : Db → Uuid × WeighingTask → HistoryItem
history_item db (id, t) = record {
  task_no = t.task_no;
  cargo_type = t.cargo_type;
  final_net_weight_tons = t.net_weight_tons;
  status = t.status;
  weight_result = t.weight_result;
  reversed = not (is_none (reversal_of id db));
  reversal_reason = reason_of (reversal_of id db);
  time = event_time t;
}

-- `ORDER BY event_time DESC, id DESC`
abbrev later_first : Uuid × WeighingTask → Uuid × WeighingTask → Bool
later_first (i, a) (j, b) =
    ltb (event_time b) (event_time a) || (event_time a == event_time b && leb j i)

abbrev history_of : Db → String → ℕ → Option (Uuid × Vehicle) → VehicleHistory
history_of db normalized_plate limit none = record {
  plate_number = normalized_plate;
  tasks = List.[];
}
history_of db normalized_plate limit (some (vehicle_id, vehicle)) = record {
  plate_number = vehicle.plate_number;
  tasks =
      map (history_item db)
        (take limit (order_by later_first (where_ (λ r. r.1.vehicle_id == vehicle_id) db.tasks)));
}

record RecordItem : Type 0 where
  pub sequence_no : ℕ
  pub weight_type : WeightType
  pub weight_tons : Tons
  pub recorded_at : Time
  pub source : WeightSource
  pub remark : Option String

record TaskDetail : Type 0 where
  pub task_no : String
  pub plate_number : Option String
  pub customer_name : Option String
  pub cargo_type : CargoType
  pub cargo_name : Option String
  pub cargo_remark : Option String
  pub driver_name : Option String
  pub tare_weight_tons : Option Tons
  pub gross_weight_tons : Option Tons
  pub net_weight_tons : Option Tons
  pub allowed_gross_weight_tons : Tons
  pub overweight_tons : Tons
  pub status : WeighingStatus
  pub weight_result : WeightResult
  pub created_at : Time
  pub completed_at : Option Time
  pub reversed : Bool
  pub reversal_reason : Option String
  pub reversed_at : Option Time
  pub reversed_by : Option String
  pub records : List RecordItem

-- The answer, with "found" as the constructor.
data DetailAnswer : Type 0 where
  missing : String → DetailAnswer
  found : TaskDetail → DetailAnswer

abbrev record_item : Uuid × WeighingRecord → RecordItem
record_item (_, r) = record {
  sequence_no = r.sequence_no;
  weight_type = r.weight_type;
  weight_tons = r.weight_tons;
  recorded_at = r.recorded_at;
  source = r.source;
  remark = r.remark;
}

-- `session.get` of an id that may be NULL
abbrev row_of {ℓ} : {V : Type ℓ} → (ℕ → Option V) → Option Uuid → Option V
row_of get none = none
row_of get (some id) = get id

abbrev name_in {ℓ} : {V : Type ℓ} → (V → String) → Option V → Option String
name_in name none = none
name_in name (some v) = some (name v)

abbrev reversed_time : Option (Uuid × WeighingReversal) → Option Time
reversed_time none = none
reversed_time (some r) = some r.1.created_at

-- `reversal.operator_name`
abbrev operator_name : Db → Option (Uuid × WeighingReversal) → Option String
operator_name db none = none
operator_name db (some r) =
    name_in (λ (u : User). u.real_name) (row_of (λ k. lookup k db.users) r.1.created_by)

abbrev detail_of : Db → Uuid × WeighingTask → TaskDetail
detail_of db (id, t) = record {
  task_no = t.task_no;
  plate_number = name_in (λ (v : Vehicle). v.plate_number) (lookup t.vehicle_id db.vehicles);
  customer_name =
      name_in (λ (c : Customer). c.name) (row_of (λ k. lookup k db.customers) t.customer_id);
  cargo_type = t.cargo_type;
  cargo_name = t.cargo_name;
  cargo_remark = t.cargo_remark;
  driver_name = t.driver_name_snapshot;
  tare_weight_tons = t.tare_weight_tons;
  gross_weight_tons = t.gross_weight_tons;
  net_weight_tons = t.net_weight_tons;
  allowed_gross_weight_tons = t.allowed_gross_weight_tons;
  overweight_tons = t.overweight_tons;
  status = t.status;
  weight_result = t.weight_result;
  created_at = t.created_at;
  completed_at = t.completed_at;
  reversed = not (is_none (reversal_of id db));
  reversal_reason = reason_of (reversal_of id db);
  reversed_at = reversed_time (reversal_of id db);
  reversed_by = operator_name db (reversal_of id db);
  records = map record_item (order_by record_le (readings id db));
}

abbrev answer_of : Db → String → Option (Uuid × WeighingTask) → DetailAnswer
answer_of db normalized_task_no none = DetailAnswer.missing normalized_task_no
answer_of db normalized_task_no (some row) = DetailAnswer.found (detail_of db row)

-- `str.upper` of Python and `upper` of the database are parameters.
module _ (to_upper upper : String → String) where
  unfoldable get_vehicle_weighing_history : String → ℕ → Db → Result VehicleHistory
  unfolding strip
  get_vehicle_weighing_history plate_number limit db = do
    let normalized_plate = to_upper (strip plate_number)
    raise_if (normalized_plate == "") value_error
    raise_if (not (leb 1 limit && leb limit 100)) value_error
    ok (
        history_of db normalized_plate limit
          (first (λ r. upper r.1.plate_number == normalized_plate) db.vehicles))

  unfoldable get_weighing_task_detail : String → Db → Result DetailAnswer
  unfolding strip
  get_weighing_task_detail task_no db = do
    let normalized_task_no = to_upper (strip task_no)
    raise_if (normalized_task_no == "") value_error
    ok (
        answer_of db normalized_task_no
          (first (λ r. upper r.1.task_no == normalized_task_no) db.tasks))
