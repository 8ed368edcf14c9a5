-- ===== src/Tests/Devices.antt =====
-- The theorems on the weighbridge, applied to a simulator of two weights.
use timber_ops.Prelude.{◌+◌, ◌*◌, ◌-◌, ◌^◌, ◌≤◌, ◌≡◌, ◌↔◌, refl, true, List, [], ◌∷◌, length}
use timber_ops.Prelude.Int.{pos, pos_part}
use timber_ops.Domain.Decimal.{Decimal, Tons}
use timber_ops.Domain.Errors.{ok}
use timber_ops.Store.Rows.{Time}
use timber_ops.Weighbridge.Device.{DeviceStatus, Mode, returns}
use timber_ops.Weighbridge.Simulator.{Weight, get_or, min, observe}
use timber_ops.Weighbridge.Adapter.{
  Adapter, Settings, validate_simulator_weights, create_weighbridge_adapter, read_weight,
}
use timber_ops.Weighbridge.Precision.{observe_bounds}
use timber_ops.Weighbridge.Reads.{reads, every_read_returns}

-- 32.418 t, and four tenths of a kilogram.
abbrev truck_weight : Decimal
truck_weight = record { coefficient = pos 32418; places = 3 }

abbrev crumb : Decimal
crumb = record { coefficient = pos 4; places = 4 }

abbrev two_weights : List Weight
two_weights = Weight.finite truck_weight ∷ Weight.finite crumb ∷ []

abbrev simulated : Settings
simulated = record {
  weighbridge_mode = Mode.simulator;
  weighbridge_simulator_weights = two_weights;
  weighbridge_simulator_stable = true;
  weighbridge_simulator_status = DeviceStatus.online;
}

two_weights_accepted : validate_simulator_weights two_weights ≡ ok two_weights
unfolding validate_simulator_weights
two_weights_accepted = refl

every_read_returns_example :
    (adapter : Adapter) × (create_weighbridge_adapter simulated ≡ ok adapter)
    × ((times : List Time) (now : Time)
        → (t : Tons) × (observe
              (get_or two_weights (min (length times) (length two_weights - 1)) Weight.not_finite)
            ≡ returns t)
          × ((read_weight now (reads times adapter)).0.0
              ≡ returns (record {
                weight = t;
                stable = true;
                timestamp = now;
                device_status = DeviceStatus.online;
              })))
every_read_returns_example = every_read_returns simulated two_weights refl refl two_weights_accepted

-- The crumb is shown as zero.
crumb_returns : observe (Weight.finite crumb) ≡ returns (pos 0)
unfolding observe
crumb_returns = refl

observe_bounds_example :
    (◌≡◌ {A = Tons} (pos 0) (pos (pos_part (pos 0))))
    × (pos_part (pos 0) ≤ 9999999999)
    × (2 * (4 * 1000) ≤ pos_part (pos 0) * (2 * 10 ^ 4) + 10 ^ 4)
    × (pos_part (pos 0) * (2 * 10 ^ 4) ≤ 2 * (4 * 1000) + 10 ^ 4)
    × ((pos_part (pos 0) ≡ 0) ↔ (2 * (4 * 1000) ≤ 10 ^ 4))
observe_bounds_example = observe_bounds crumb (pos 0) crumb_returns
