-- ===== src/Master/Vehicles.antt =====
-- backend/app/services/vehicle_service.py, with the commands of backend/app/schemas/vehicle.py. The
-- schemas let through weights of at most three places, so those are counted in thousandths here.
use timber_ops.Prelude.{
  ℕ, String, Bool, not, ◌&&◌, ◌||◌, Option, none, some, List, [], ◌∷◌, ◌==◌, string_eq, nat_eq,
  option_eq, is_none, ltb, leb, length, first, where_, lookup, insert, update, if◌then◌else◌,
}
use timber_ops.Prelude.Sorting.{order_by}
use timber_ops.Prelude.Int.{int_eq}
use timber_ops.Domain.Enums.{VehicleType, vehicle_type_eq}
use timber_ops.Domain.Errors.{
  Result, ok, not_found, conflict, vehicle_has_history, ◌>>=◌, ◌>>◌, raise_if, or_raise,
}
use timber_ops.Domain.Decimal.{Tons}
use timber_ops.Store.Rows.{Uuid, Vehicle, JsonValue}
use timber_ops.Store.Db.{Db, Env}
use timber_ops.Store.Session.{flush, commit}
use timber_ops.Weighing.Inputs.{DeleteEntityInput}
use timber_ops.Weighing.Tasks.{add_audit}

pub record VehicleCreate : Type 0 where
  pub plate_number : String
  pub driver_name : Option String
  pub driver_phone : Option String
  pub vehicle_type : VehicleType
  pub allowed_gross_weight_tons : Tons
  pub remark : Option String

-- A field that the client did not set is `none`; one that it set to null is `some none`.
pub record VehicleUpdate : Type 0 where
  pub driver_name : Option (Option String)
  pub driver_phone : Option (Option String)
  pub vehicle_type : Option VehicleType
  pub allowed_gross_weight_tons : Option Tons
  pub remark : Option (Option String)

abbrev pub has_plate : String → Uuid × Vehicle → Bool
has_plate plate (_, v) = v.plate_number == plate && is_none v.deleted_at

abbrev pub new_vehicle : Env → VehicleCreate → Vehicle
new_vehicle env input = record {
  plate_number = input.plate_number;
  driver_name = input.driver_name;
  driver_phone = input.driver_phone;
  vehicle_type = some input.vehicle_type;
  vehicle_type_legacy = none;
  allowed_gross_weight_tons = input.allowed_gross_weight_tons;
  remark = input.remark;
  deleted_at = none;
  created_at = env.now;
  updated_at = env.now;
}

abbrev pub vehicle_inserted : Env → VehicleCreate → Db → Db
vehicle_inserted env input db = record db {
  vehicles = insert (env.uuid 0) (new_vehicle env input) db.vehicles;
}

unfoldable pub create_vehicle : Env → VehicleCreate → Db → Result ((Uuid × Vehicle) × Db)
create_vehicle env input db = do
  raise_if (not (is_none (first (has_plate input.plate_number) db.vehicles))) conflict
  db' ← commit (vehicle_inserted env input db)
  ok ((env.uuid 0, new_vehicle env input), db')

unfoldable pub get_vehicle : Uuid → Db → Result Vehicle
get_vehicle vehicle_id db = do
  vehicle ← or_raise (lookup vehicle_id db.vehicles) not_found
  raise_if (not (is_none vehicle.deleted_at)) not_found
  ok vehicle

-- `ORDER BY created_at, id`
abbrev pub vehicle_le : Uuid × Vehicle → Uuid × Vehicle → Bool
vehicle_le (i, a) (j, b) =
    ltb a.created_at b.created_at || (a.created_at == b.created_at && leb i j)

unfoldable pub list_vehicles : Db → List (Uuid × Vehicle)
list_vehicles db = order_by vehicle_le (where_ (λ r. is_none r.1.deleted_at) db.vehicles)

-- `setattr` of a field that the client set.
abbrev pub patched {ℓ} : {A : Type ℓ} → Option A → A → A
patched none old = old
patched (some new) old = new

abbrev pub patched_type : Option VehicleType → Option VehicleType → Option VehicleType
patched_type none old = old
patched_type (some t) old = some t

abbrev pub with_changes : VehicleUpdate → Vehicle → Vehicle
with_changes input v = record v {
  driver_name = patched input.driver_name v.driver_name;
  driver_phone = patched input.driver_phone v.driver_phone;
  vehicle_type = patched_type input.vehicle_type v.vehicle_type;
  allowed_gross_weight_tons = patched input.allowed_gross_weight_tons v.allowed_gross_weight_tons;
  remark = patched input.remark v.remark;
}

-- Does an update leave every column as it is? Then no UPDATE is sent.
abbrev pub same_vehicle : Vehicle → Vehicle → Bool
same_vehicle a b =
    a.driver_name == b.driver_name
    && a.driver_phone == b.driver_phone
    && a.vehicle_type == b.vehicle_type
    && a.allowed_gross_weight_tons == b.allowed_gross_weight_tons
    && a.remark == b.remark

abbrev pub save_vehicle : Env → Uuid → Vehicle → Db → Db
save_vehicle env vehicle_id v db = record db {
  vehicles = update vehicle_id (record v { updated_at = env.now }) db.vehicles;
}

abbrev pub vehicle_updated : Env → Uuid → VehicleUpdate → Vehicle → Db → Db
vehicle_updated env vehicle_id input v db =
    if same_vehicle (with_changes input v) v
    then db
    else save_vehicle env vehicle_id (with_changes input v) db

-- The command has no plate number, so the service's search for a duplicate plate never runs.
unfoldable pub update_vehicle : Env → Uuid → VehicleUpdate → Db → Result (Vehicle × Db)
update_vehicle env vehicle_id input db = do
  vehicle ← get_vehicle vehicle_id db
  db' ← commit (vehicle_updated env vehicle_id input vehicle db)
  ok (with_changes input vehicle, db')

-- Deleted tasks count too.
abbrev pub vehicle_history : Uuid → Db → ℕ
vehicle_history vehicle_id db = length (where_ (λ r. r.1.vehicle_id == vehicle_id) db.tasks)

abbrev pub vehicle_deleted : Env → Uuid → DeleteEntityInput → Option Uuid → Vehicle → Db → Db
vehicle_deleted env vehicle_id input operator_id vehicle db =
    add_audit env 0 operator_id "VEHICLE_DELETED" "Vehicle" vehicle_id
      (some (("deleted_at", JsonValue.null) ∷ []))
      (some (("deleted_at", JsonValue.time_text env.now) ∷ [])) (some input.reason)
      (save_vehicle env vehicle_id (record vehicle { deleted_at = some env.now }) db)

unfoldable pub delete_vehicle : Env → Uuid → DeleteEntityInput → Option Uuid → Db → Result Db
delete_vehicle env vehicle_id input operator_id db = do
  vehicle ← get_vehicle vehicle_id db
  raise_if (ltb 0 (vehicle_history vehicle_id db)) vehicle_has_history
  flush (vehicle_deleted env vehicle_id input operator_id vehicle db)
