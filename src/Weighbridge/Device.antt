-- ===== src/Weighbridge/Device.antt =====
-- The contract of an adapter: backend/app/integrations/weighbridge/base.py.
use timber_ops.Prelude.{ℕ, String, Bool, true, ◌≡◌, ◌↔◌, Equality, nat_beq, arith}
use timber_ops.Domain.Decimal.{Tons}
use timber_ops.Store.Rows.{Time}

pub data DeviceStatus : Type 0 where
  manual online offline timeout error : DeviceStatus

abbrev device_status_index : DeviceStatus → ℕ
device_status_index DeviceStatus.manual = 0
device_status_index DeviceStatus.online = 1
device_status_index DeviceStatus.offline = 2
device_status_index DeviceStatus.timeout = 3
device_status_index DeviceStatus.error = 4

abbrev device_status_beq : DeviceStatus → DeviceStatus → Bool
device_status_beq a b = nat_beq (device_status_index a) (device_status_index b)

pub device_status_beq_iff : (a b : DeviceStatus) → (device_status_beq a b ≡ true) ↔ (a ≡ b)
device_status_beq_iff a b = ground arith

instance abbrev pub device_status_eq : Equality DeviceStatus
device_status_eq = record { same = device_status_beq; same_iff = device_status_beq_iff }

pub data Mode : Type 0 where
  manual simulator : Mode

-- The messages are not kept.
pub record WeighbridgeStatus : Type 0 where
  pub mode : Mode
  pub device_status : DeviceStatus
  pub available : Bool

-- The unit is always the ton.
pub record WeightReading : Type 0 where
  pub weight : Tons
  pub stable : Bool
  pub timestamp : Time
  pub device_status : DeviceStatus

pub data WeighbridgeError : Type 0 where
  manual_mode device_offline device_timeout device_read invalid_weight : WeighbridgeError

-- A call of a device raises one of these, or returns.
pub data Outcome {ℓ} (A : Type ℓ) : Type ℓ where
  raises : WeighbridgeError → Outcome A
  returns : A → Outcome A

-- `code`, the stable code of the API
abbrev pub code : WeighbridgeError → String
code WeighbridgeError.manual_mode = "WEIGHBRIDGE_MANUAL_MODE"
code WeighbridgeError.device_offline = "WEIGHBRIDGE_OFFLINE"
code WeighbridgeError.device_timeout = "WEIGHBRIDGE_TIMEOUT"
code WeighbridgeError.device_read = "WEIGHBRIDGE_READ_ERROR"
code WeighbridgeError.invalid_weight = "WEIGHBRIDGE_INVALID_WEIGHT"
