-- ===== src/Analytics/Overweight.antt =====
-- `get_overweight_records` of AnalyticsService: the first reading of each task above its weight
-- snapshot.
pub mod FirstReadings
pub mod Listing
use timber_ops.Prelude.{
  ℕ, String, Bool, true, false, ◌&&◌, ◌||◌, ◌==◌, nat_eq, option_eq, leb, ltb, Option, none, some,
  List, [], ◌∷◌, map, if◌then◌else◌, lookup, Table,
}
use timber_ops.Prelude.Int.{◌-ℤ◌, ltb_ℤ}
use timber_ops.Prelude.Sorting.{order_by}
use timber_ops.Prelude.Totals.{group_by}
use timber_ops.Prelude.Groups.{minimum}
use timber_ops.Prelude.{where_}
use timber_ops.Domain.Enums.{
  CargoType, WeighingStatus, weighing_status_eq, WeightResult, WeightType, weight_type_eq,
}
use timber_ops.Domain.Decimal.{Tons}
use timber_ops.Domain.Errors.{Result, ok, ◌>>=◌}
use timber_ops.Store.Rows.{Uuid, Time, WeighingTask, WeighingRecord, Vehicle}
use timber_ops.Store.Db.{Db}
use timber_ops.Reports.Figures.{task_is_not_reversed}
use timber_ops.Analytics.{date_bounds, passes_datetime}

-- The rows of `first_event` before they are grouped.
abbrev pub is_above : Db → Uuid × WeighingRecord → Option WeighingTask → Bool
is_above db (_, r) none = false
is_above db (_, r) (some t) =
    task_is_not_reversed db r.weighing_task_id
    && (r.weight_type == WeightType.gross || r.weight_type == WeightType.reweigh)
    && ltb_ℤ t.allowed_gross_weight_tons r.weight_tons

abbrev pub is_event : Db → Uuid × WeighingRecord → Bool
is_event db row = is_above db row (lookup row.1.weighing_task_id db.tasks)

abbrev pub sequence_no : Uuid × WeighingRecord → ℕ
sequence_no (_, r) = r.sequence_no

abbrev pub task_of : Uuid × WeighingRecord → Uuid
task_of (_, r) = r.weighing_task_id

-- The subquery `first_event`: for each task, the least sequence number.
unfoldable pub first_event : Db → Table ℕ
first_event db =
    map (λ g. (g.0, minimum (map sequence_no g.1)))
      (group_by task_of (where_ (is_event db) db.records))

-- A row of the joins. One task has one row of `first_event` at most.
pub record Event : Type 0 where
  pub task_id : Uuid
  pub task : WeighingTask
  pub reading : WeighingRecord
  pub plate_number : String

abbrev pub is_first : Db → Uuid × WeighingRecord → Bool
is_first db row = lookup (task_of row) (first_event db) == some (sequence_no row)

abbrev pub with_vehicle : WeighingRecord → WeighingTask → Option Vehicle → Option Event
with_vehicle r t none = none
with_vehicle r t (some v) =
    some (record {
      task_id = r.weighing_task_id;
      task = t;
      reading = r;
      plate_number = v.plate_number;
    })

abbrev pub with_task : Db → WeighingRecord → Option WeighingTask → Option Event
with_task db r none = none
with_task db r (some t) = with_vehicle r t (lookup t.vehicle_id db.vehicles)

abbrev pub event_of : Db → Option Time × Option Time → Uuid × WeighingRecord → Option Event
event_of db bounds row =
    if is_first db row && passes_datetime bounds row.1.recorded_at
    then with_task db row.1 (lookup (task_of row) db.tasks)
    else none

abbrev pub joined_to : Option Event → List Event → List Event
joined_to none es = es
joined_to (some e) es = e ∷ es

abbrev pub events : Db → Option Time × Option Time → List (Uuid × WeighingRecord) → List Event
events db bounds [] = []
events db bounds (row ∷ rows) = joined_to (event_of db bounds row) (events db bounds rows)

-- `ORDER BY recorded_at, id`
abbrev pub event_le : Event → Event → Bool
event_le a b =
    ltb a.reading.recorded_at b.reading.recorded_at
    || (a.reading.recorded_at == b.reading.recorded_at && leb a.task_id b.task_id)

-- The dictionary of one event. Decimals and times are kept as what their texts show.
pub record OverweightRecord : Type 0 where
  pub plate_number : String
  pub task_no : String
  pub cargo_type : CargoType
  pub first_overweight_weight_tons : Tons
  pub allowed_gross_weight_tons : Tons
  pub overweight_tons : Tons
  pub event_time : Time
  pub final_status : WeighingStatus
  pub final_weight_result : WeightResult
  pub finally_completed : Bool

abbrev pub overweight_record : Event → OverweightRecord
overweight_record e = record {
  plate_number = e.plate_number;
  task_no = e.task.task_no;
  cargo_type = e.task.cargo_type;
  first_overweight_weight_tons = e.reading.weight_tons;
  allowed_gross_weight_tons = e.task.allowed_gross_weight_tons;
  overweight_tons = e.reading.weight_tons -ℤ e.task.allowed_gross_weight_tons;
  event_time = e.reading.recorded_at;
  final_status = e.task.status;
  final_weight_result = e.task.weight_result;
  finally_completed = e.task.status == WeighingStatus.completed;
}

abbrev pub ordered_events : Db → Option Time × Option Time → List Event
ordered_events db bounds = order_by event_le (events db bounds db.records)

unfoldable pub get_overweight_records : Option ℕ → Option ℕ → Db → Result (List OverweightRecord)
unfolding date_bounds first_event
get_overweight_records start_date end_date db = do
  bounds ← date_bounds start_date end_date
  ok (map overweight_record (ordered_events db bounds))
