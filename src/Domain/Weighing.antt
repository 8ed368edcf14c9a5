-- ===== src/Domain/Weighing.antt =====
-- `calculate_weight` of backend/app/domain/weighing.py.
pub mod Outcome
use timber_ops.Prelude.{if◌then◌else◌}
use timber_ops.Prelude.Int.{pos, ◌-ℤ◌, ltb_ℤ, leb_ℤ}
use timber_ops.Domain.Enums.{WeightResult}
use timber_ops.Domain.Errors.{Result, ok, validation, ◌>>=◌, ◌>>◌, raise_if}
use timber_ops.Domain.Decimal.{Decimal, Tons, quantize_tons, of_tons}

abbrev pub zero_tons : Tons
zero_tons = pos 0

pub record WeightCalculation : Type 0 where
  pub gross_weight_tons : Tons
  pub net_weight_tons : Tons
  pub overweight_tons : Tons
  pub result : WeightResult

-- Python's `max`.
abbrev pub max_tons : Tons → Tons → Tons
max_tons a b = if ltb_ℤ a b then b else a

-- Once the tests have passed, both sides of each difference are positive and within the precision,
-- so the differences are exact.
unfoldable pub calculate_weight : Decimal → Decimal → Decimal → Result WeightCalculation
calculate_weight tare_weight_tons gross_weight_tons allowed_gross_weight_tons = do
  tare ← quantize_tons tare_weight_tons
  gross ← quantize_tons gross_weight_tons
  allowed ← quantize_tons allowed_gross_weight_tons
  raise_if (leb_ℤ tare zero_tons) validation
  raise_if (leb_ℤ allowed zero_tons) validation
  raise_if (leb_ℤ gross tare) validation
  net ← quantize_tons (of_tons (gross -ℤ tare))
  overweight ← quantize_tons (of_tons (max_tons (gross -ℤ allowed) zero_tons))
  ok (record {
    gross_weight_tons = gross;
    net_weight_tons = net;
    overweight_tons = overweight;
    result = if leb_ℤ gross allowed then WeightResult.normal else WeightResult.overweight;
  })
