-- ===== src/Domain/Enums.antt =====
-- The string enums of backend/app/domain/enums.py: constructors, equality by position in the
-- declaration, and the persisted text of those that the audit trail and the reports show.
use timber_ops.Prelude.{ℕ, String, ◌≡◌, ◌↔◌, Bool, true, arith, nat_beq, Equality}

-- Cargo categories.
pub data CargoType : Type 0 where
  ore coal timber other : CargoType

abbrev cargo_type_index : CargoType → ℕ
cargo_type_index CargoType.ore = 0
cargo_type_index CargoType.coal = 1
cargo_type_index CargoType.timber = 2
cargo_type_index CargoType.other = 3

abbrev cargo_type_beq : CargoType → CargoType → Bool
cargo_type_beq a b = nat_beq (cargo_type_index a) (cargo_type_index b)

pub cargo_type_beq_iff : (a b : CargoType) → (cargo_type_beq a b ≡ true) ↔ (a ≡ b)
cargo_type_beq_iff a b = ground arith

instance abbrev pub cargo_type_eq : Equality CargoType
cargo_type_eq = record { same = cargo_type_beq; same_iff = cargo_type_beq_iff }

-- Vehicle classes.
pub data VehicleType : Type 0 where
  small medium large : VehicleType

abbrev vehicle_type_index : VehicleType → ℕ
vehicle_type_index VehicleType.small = 0
vehicle_type_index VehicleType.medium = 1
vehicle_type_index VehicleType.large = 2

abbrev vehicle_type_beq : VehicleType → VehicleType → Bool
vehicle_type_beq a b = nat_beq (vehicle_type_index a) (vehicle_type_index b)

pub vehicle_type_beq_iff : (a b : VehicleType) → (vehicle_type_beq a b ≡ true) ↔ (a ≡ b)
vehicle_type_beq_iff a b = ground arith

instance abbrev pub vehicle_type_eq : Equality VehicleType
vehicle_type_eq = record { same = vehicle_type_beq; same_iff = vehicle_type_beq_iff }

-- The state of a fee.
pub data PaymentStatus : Type 0 where
  unpaid paid waived : PaymentStatus

abbrev payment_status_index : PaymentStatus → ℕ
payment_status_index PaymentStatus.unpaid = 0
payment_status_index PaymentStatus.paid = 1
payment_status_index PaymentStatus.waived = 2

abbrev payment_status_beq : PaymentStatus → PaymentStatus → Bool
payment_status_beq a b = nat_beq (payment_status_index a) (payment_status_index b)

pub payment_status_beq_iff : (a b : PaymentStatus) → (payment_status_beq a b ≡ true) ↔ (a ≡ b)
payment_status_beq_iff a b = ground arith

instance abbrev pub payment_status_eq : Equality PaymentStatus
payment_status_eq = record { same = payment_status_beq; same_iff = payment_status_beq_iff }

-- The lifecycle of a weighing task.
pub data WeighingStatus : Type 0 where
  wait_tare tare_completed wait_gross gross_completed completed cancelled : WeighingStatus

abbrev weighing_status_index : WeighingStatus → ℕ
weighing_status_index WeighingStatus.wait_tare = 0
weighing_status_index WeighingStatus.tare_completed = 1
weighing_status_index WeighingStatus.wait_gross = 2
weighing_status_index WeighingStatus.gross_completed = 3
weighing_status_index WeighingStatus.completed = 4
weighing_status_index WeighingStatus.cancelled = 5

abbrev weighing_status_beq : WeighingStatus → WeighingStatus → Bool
weighing_status_beq a b = nat_beq (weighing_status_index a) (weighing_status_index b)

pub weighing_status_beq_iff : (a b : WeighingStatus) → (weighing_status_beq a b ≡ true) ↔ (a ≡ b)
weighing_status_beq_iff a b = ground arith

instance abbrev pub weighing_status_eq : Equality WeighingStatus
weighing_status_eq = record { same = weighing_status_beq; same_iff = weighing_status_beq_iff }

-- The evaluation of the latest gross weight.
pub data WeightResult : Type 0 where
  pending normal overweight : WeightResult

abbrev weight_result_index : WeightResult → ℕ
weight_result_index WeightResult.pending = 0
weight_result_index WeightResult.normal = 1
weight_result_index WeightResult.overweight = 2

abbrev weight_result_beq : WeightResult → WeightResult → Bool
weight_result_beq a b = nat_beq (weight_result_index a) (weight_result_index b)

pub weight_result_beq_iff : (a b : WeightResult) → (weight_result_beq a b ≡ true) ↔ (a ≡ b)
weight_result_beq_iff a b = ground arith

instance abbrev pub weight_result_eq : Equality WeightResult
weight_result_eq = record { same = weight_result_beq; same_iff = weight_result_beq_iff }

-- What a scale reading means.
pub data WeightType : Type 0 where
  tare gross reweigh : WeightType

abbrev weight_type_index : WeightType → ℕ
weight_type_index WeightType.tare = 0
weight_type_index WeightType.gross = 1
weight_type_index WeightType.reweigh = 2

abbrev weight_type_beq : WeightType → WeightType → Bool
weight_type_beq a b = nat_beq (weight_type_index a) (weight_type_index b)

pub weight_type_beq_iff : (a b : WeightType) → (weight_type_beq a b ≡ true) ↔ (a ≡ b)
weight_type_beq_iff a b = ground arith

instance abbrev pub weight_type_eq : Equality WeightType
weight_type_eq = record { same = weight_type_beq; same_iff = weight_type_beq_iff }

-- Where a scale reading comes from.
pub data WeightSource : Type 0 where
  manual device : WeightSource

abbrev weight_source_index : WeightSource → ℕ
weight_source_index WeightSource.manual = 0
weight_source_index WeightSource.device = 1

abbrev weight_source_beq : WeightSource → WeightSource → Bool
weight_source_beq a b = nat_beq (weight_source_index a) (weight_source_index b)

pub weight_source_beq_iff : (a b : WeightSource) → (weight_source_beq a b ≡ true) ↔ (a ≡ b)
weight_source_beq_iff a b = ground arith

instance abbrev pub weight_source_eq : Equality WeightSource
weight_source_eq = record { same = weight_source_beq; same_iff = weight_source_beq_iff }

-- The direction of the vehicle's movement.
pub data WeighingDirection : Type 0 where
  outbound inbound : WeighingDirection

abbrev weighing_direction_index : WeighingDirection → ℕ
weighing_direction_index WeighingDirection.outbound = 0
weighing_direction_index WeighingDirection.inbound = 1

abbrev weighing_direction_beq : WeighingDirection → WeighingDirection → Bool
weighing_direction_beq a b = nat_beq (weighing_direction_index a) (weighing_direction_index b)

pub weighing_direction_beq_iff :
    (a b : WeighingDirection) → (weighing_direction_beq a b ≡ true) ↔ (a ≡ b)
weighing_direction_beq_iff a b = ground arith

instance abbrev pub weighing_direction_eq : Equality WeighingDirection
weighing_direction_eq = record {
  same = weighing_direction_beq;
  same_iff = weighing_direction_beq_iff;
}

abbrev pub weighing_status_value : WeighingStatus → String
weighing_status_value WeighingStatus.wait_tare = "WAIT_TARE"
weighing_status_value WeighingStatus.tare_completed = "TARE_COMPLETED"
weighing_status_value WeighingStatus.wait_gross = "WAIT_GROSS"
weighing_status_value WeighingStatus.gross_completed = "GROSS_COMPLETED"
weighing_status_value WeighingStatus.completed = "COMPLETED"
weighing_status_value WeighingStatus.cancelled = "CANCELLED"

abbrev pub weight_result_value : WeightResult → String
weight_result_value WeightResult.pending = "PENDING"
weight_result_value WeightResult.normal = "NORMAL"
weight_result_value WeightResult.overweight = "OVERWEIGHT"

abbrev pub payment_status_value : PaymentStatus → String
payment_status_value PaymentStatus.unpaid = "UNPAID"
payment_status_value PaymentStatus.paid = "PAID"
payment_status_value PaymentStatus.waived = "WAIVED"

abbrev pub cargo_type_value : CargoType → String
cargo_type_value CargoType.ore = "ORE"
cargo_type_value CargoType.coal = "COAL"
cargo_type_value CargoType.timber = "TIMBER"
cargo_type_value CargoType.other = "OTHER"

abbrev pub vehicle_type_value : VehicleType → String
vehicle_type_value VehicleType.small = "SMALL"
vehicle_type_value VehicleType.medium = "MEDIUM"
vehicle_type_value VehicleType.large = "LARGE"
