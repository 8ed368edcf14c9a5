-- ===== src/Weighbridge/Simulator.antt =====
-- The simulator: backend/app/integrations/weighbridge/simulator.py. Its lock makes a read atomic.
use timber_ops.Prelude.{
  ℕ, zero, suc, ◌+◌, ◌-◌, ◌*◌, ◌/◌, ◌%◌, ◌^◌, Bool, ◌==◌, ltb, leb, List, [], ◌∷◌, length,
  if◌then◌else◌,
}
use timber_ops.Prelude.Int.{pos, leb_ℤ, ltb_ℤ, pos_part}
use timber_ops.Domain.Decimal.{Decimal, Tons, precision_limit}
use timber_ops.Domain.Errors.{Result, ok, err, value_error, invalid_operation}
use timber_ops.Store.Rows.{Time}
use timber_ops.Weighbridge.Device.{
  DeviceStatus, device_status_eq, Mode, WeighbridgeStatus, WeightReading, WeighbridgeError, Outcome,
  raises, returns,
}

-- What Python's Decimal reads: a number, or NaN or an infinity.
pub data Weight : Type 0 where
  finite : Decimal → Weight
  not_finite : Weight

pub record Simulator : Type 0 where
  pub weights : List Weight
  pub stable : Bool
  pub device_status : DeviceStatus
  pub index : ℕ

-- `__init__`
abbrev pub new_simulator : List Weight → Bool → DeviceStatus → Result Simulator
new_simulator [] stable device_status = err value_error
new_simulator (w ∷ ws) stable device_status =
    ok (record { weights = w ∷ ws; stable = stable; device_status = device_status; index = 0 })

abbrev pub simulator_status : Simulator → WeighbridgeStatus
simulator_status s = record {
  mode = Mode.simulator;
  device_status = s.device_status;
  available = s.device_status == DeviceStatus.online;
}

-- `list[i]`; an index out of range is never asked for.
abbrev pub get_or {ℓ} : {A : Type ℓ} → List A → ℕ → A → A
get_or [] i default = default
get_or (x ∷ xs) zero default = x
get_or (x ∷ xs) (suc i) default = get_or xs i default

abbrev pub min : ℕ → ℕ → ℕ
min a b = if leb a b then a else b

-- `min(self._index, len(self._weights) - 1)`
abbrev pub current : Simulator → Weight
current s = get_or s.weights (min s.index (length s.weights - 1)) Weight.not_finite

abbrev pub advanced : Simulator → Simulator
advanced s = if ltb s.index (length s.weights - 1) then record s { index = s.index + 1 } else s

-- `weight > Decimal("9999999.999")`
abbrev pub is_above_limit : Decimal → Bool
is_above_limit w = ltb_ℤ (pos (9999999999 * 10 ^ w.places)) (pos (pos_part w.coefficient * 1000))

-- `quantize(Decimal("0.001"))` of a positive weight, which rounds a half to the even neighbour
unfoldable pub round_half_even : ℕ → ℕ → ℕ
round_half_even n p =
    let d = 10 ^ p in
    let q = (n * 1000) / d in
    let r = (n * 1000) % d in
    if ltb (2 * r) d then q else if ltb d (2 * r) then q + 1 else q + q % 2

unfoldable pub quantize : Decimal → Result Tons
unfolding round_half_even
quantize w =
    let n = round_half_even (pos_part w.coefficient) w.places in
    if ltb n precision_limit then ok (pos n) else err invalid_operation

abbrev normalized : Result Tons → Outcome Tons
normalized (ok t) = returns t
normalized (err e) = raises WeighbridgeError.invalid_weight

-- The weight that a read returns for a configured one.
unfoldable pub observe : Weight → Outcome Tons
unfolding quantize
observe Weight.not_finite = raises WeighbridgeError.invalid_weight
observe (Weight.finite w) =
    if leb_ℤ w.coefficient (pos 0)
    then raises WeighbridgeError.invalid_weight
    else if is_above_limit w
    then raises WeighbridgeError.invalid_weight
    else normalized (quantize w)

abbrev pub as_reading : Time → Bool → Outcome Tons → Outcome WeightReading
as_reading now stable (raises e) = raises e
as_reading now stable (returns t) =
    returns
      (record { weight = t; stable = stable; timestamp = now; device_status = DeviceStatus.online })

-- `read_weight`: the index moves on before the weight is tested.
abbrev read_as : DeviceStatus → Time → Simulator → Outcome WeightReading × Simulator
read_as DeviceStatus.offline now s = (raises WeighbridgeError.device_offline, s)
read_as DeviceStatus.timeout now s = (raises WeighbridgeError.device_timeout, s)
read_as DeviceStatus.error now s = (raises WeighbridgeError.device_read, s)
read_as DeviceStatus.manual now s = (raises WeighbridgeError.device_read, s)
read_as DeviceStatus.online now s = (as_reading now s.stable (observe (current s)), advanced s)

unfoldable pub read_simulator : Time → Simulator → Outcome WeightReading × Simulator
unfolding observe
read_simulator now s = read_as s.device_status now s
