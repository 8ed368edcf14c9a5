-- ===== src/Weighbridge/Adapter.antt =====
-- Both adapters behind one contract (manual.py, factory.py), the settings that choose one
-- (backend/app/core/config.py), and the service of backend/app/services/weighbridge_service.py.
use timber_ops.Prelude.{Bool, true, false, ◌||◌, List, [], ◌∷◌, any}
use timber_ops.Prelude.Int.{pos, leb_ℤ}
use timber_ops.Domain.Errors.{Result, ok, err, value_error, ◌>>=◌, ◌>>◌, raise_if}
use timber_ops.Store.Rows.{Time}
use timber_ops.Weighbridge.Device.{
  DeviceStatus, Mode, WeighbridgeStatus, WeightReading, WeighbridgeError, Outcome, raises, returns,
}
use timber_ops.Weighbridge.Simulator.{
  Weight, Simulator, new_simulator, simulator_status, is_above_limit, read_simulator,
}

pub data Adapter : Type 0 where
  manual : Adapter
  simulated : Simulator → Adapter

abbrev pub mode : Adapter → Mode
mode Adapter.manual = Mode.manual
mode (Adapter.simulated s) = Mode.simulator

abbrev pub adapter_status : Adapter → WeighbridgeStatus
adapter_status Adapter.manual = record {
  mode = Mode.manual;
  device_status = DeviceStatus.manual;
  available = false;
}
adapter_status (Adapter.simulated s) = simulator_status s

abbrev as_adapter : Outcome WeightReading × Simulator → Outcome WeightReading × Adapter
as_adapter (o, s) = (o, Adapter.simulated s)

unfoldable pub read_adapter : Time → Adapter → Outcome WeightReading × Adapter
unfolding read_simulator
read_adapter now Adapter.manual = (raises WeighbridgeError.manual_mode, Adapter.manual)
read_adapter now (Adapter.simulated s) = as_adapter (read_simulator now s)

-- The settings of the weighbridge, with the weights as Decimal reads the parts of their text.
pub record Settings : Type 0 where
  pub weighbridge_mode : Mode
  pub weighbridge_simulator_weights : List Weight
  pub weighbridge_simulator_stable : Bool
  pub weighbridge_simulator_status : DeviceStatus

abbrev pub is_refused : Weight → Bool
is_refused Weight.not_finite = true
is_refused (Weight.finite w) = leb_ℤ w.coefficient (pos 0) || is_above_limit w

-- `validate_simulator_weights`
unfoldable pub validate_simulator_weights : List Weight → Result (List Weight)
validate_simulator_weights [] = err value_error
validate_simulator_weights (w ∷ ws) = do raise_if (any is_refused (w ∷ ws)) value_error; ok (w ∷ ws)

abbrev pub of_mode : Mode → Settings → Result Adapter
of_mode Mode.manual settings = ok Adapter.manual
of_mode Mode.simulator settings = do
  s ←
      new_simulator settings.weighbridge_simulator_weights settings.weighbridge_simulator_stable
        settings.weighbridge_simulator_status
  ok (Adapter.simulated s)

unfoldable pub create_weighbridge_adapter : Settings → Result Adapter
create_weighbridge_adapter settings = of_mode settings.weighbridge_mode settings

-- What the service tells the metrics: whether the device is online.
abbrev pub online_gauge : Outcome WeightReading → Bool
online_gauge (raises e) = false
online_gauge (returns r) = true

-- `WeighbridgeService.read_weight`, with the gauge that it sets
unfoldable pub read_weight : Time → Adapter → (Outcome WeightReading × Adapter) × Bool
unfolding read_adapter
read_weight now adapter = let read = read_adapter now adapter in (read, online_gauge read.0)

-- `WeighbridgeService.get_status`, with the gauge
abbrev pub get_status : Adapter → WeighbridgeStatus × Bool
get_status adapter = (adapter_status adapter, (adapter_status adapter).available)
