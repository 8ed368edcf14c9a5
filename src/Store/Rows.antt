-- ===== src/Store/Rows.antt =====
-- The rows of the tables of backend/app/models. A row stands under its id, which is no field of
-- it. Ids and times (in microseconds of UTC) are numbers.
use timber_ops.Prelude.{ℕ, String, Bool, List, Option}
use timber_ops.Domain.Enums.{
  CargoType, VehicleType, PaymentStatus, WeighingStatus, WeightResult, WeightType, WeightSource,
  WeighingDirection,
}
use timber_ops.Domain.Decimal.{Tons, Money}

abbrev pub Uuid : Type 0
Uuid = ℕ

abbrev pub Time : Type 0
Time = ℕ

pub record Vehicle : Type 0 where
  pub plate_number : String
  pub driver_name : Option String
  pub driver_phone : Option String
  pub vehicle_type : Option VehicleType
  pub vehicle_type_legacy : Option String
  pub allowed_gross_weight_tons : Tons
  pub remark : Option String
  pub deleted_at : Option Time
  pub created_at : Time
  pub updated_at : Time

pub record Customer : Type 0 where
  pub name : String
  pub contact_name : Option String
  pub phone : Option String
  pub remark : Option String
  pub deleted_at : Option Time
  pub created_at : Time
  pub updated_at : Time

pub record User : Type 0 where
  pub username : String
  pub password_hash : String
  pub real_name : String
  pub is_active : Bool
  pub created_at : Time
  pub updated_at : Time

pub record WeighingTask : Type 0 where
  pub task_no : String
  pub vehicle_id : Uuid
  pub customer_id : Option Uuid
  pub weighing_direction : WeighingDirection
  pub cargo_type : CargoType
  pub cargo_name : Option String
  pub cargo_remark : Option String
  pub driver_name_snapshot : Option String
  pub driver_phone_snapshot : Option String
  pub tare_weight_tons : Option Tons
  pub gross_weight_tons : Option Tons
  pub net_weight_tons : Option Tons
  pub allowed_gross_weight_tons : Tons
  pub overweight_tons : Tons
  pub status : WeighingStatus
  pub weight_result : WeightResult
  pub tare_time : Option Time
  pub gross_time : Option Time
  pub completed_at : Option Time
  pub created_by : Option Uuid
  pub version : ℕ
  pub deleted_at : Option Time
  pub deleted_by : Option Uuid
  pub delete_reason : Option String
  pub created_at : Time
  pub updated_at : Time

pub record WeighingRecord : Type 0 where
  pub weighing_task_id : Uuid
  pub weight_type : WeightType
  pub weight_tons : Tons
  pub sequence_no : ℕ
  pub recorded_at : Time
  pub recorded_by : Option Uuid
  pub source : WeightSource
  pub remark : Option String
  pub created_at : Time

pub record BillingRule : Type 0 where
  pub vehicle_type : VehicleType
  pub fee_amount : Money
  pub currency : String
  pub effective_time : Time
  pub created_at : Time

pub record BillingRecord : Type 0 where
  pub weighing_task_id : Uuid
  pub vehicle_id : Uuid
  pub vehicle_type_snapshot : VehicleType
  pub fee_amount : Money
  pub payment_status : PaymentStatus
  pub created_at : Time

pub record WeighingReversal : Type 0 where
  pub original_task_id : Uuid
  pub reason : String
  pub created_by : Option Uuid
  pub billing_record_id : Option Uuid
  pub billing_payment_status_snapshot : Option PaymentStatus
  pub billing_fee_amount_snapshot : Option Money
  pub created_at : Time

-- The values of the JSON columns. A formatted decimal, time or id is kept as what it shows.
pub data JsonValue : Type 0 where
  null : JsonValue
  flag : Bool → JsonValue
  text : String → JsonValue
  decimal_text : Tons → JsonValue
  time_text : Time → JsonValue
  uuid_text : Uuid → JsonValue

abbrev pub JsonObject : Type 0
JsonObject = List (String × JsonValue)

pub record AuditLog : Type 0 where
  pub operator_id : Option Uuid
  pub action : String
  pub target_type : String
  pub target_id : Option Uuid
  pub before_value : Option JsonObject
  pub after_value : Option JsonObject
  pub reason : Option String
  pub created_at : Time
