-- ===== src/Weighing/Inputs.antt =====
-- The commands of backend/app/schemas/weighing.py and lifecycle.py, as the services receive them.
use timber_ops.Prelude.{String, Option}
use timber_ops.Domain.Enums.{CargoType, WeighingDirection}
use timber_ops.Domain.Decimal.{Decimal}
use timber_ops.Store.Rows.{Uuid}

pub record WeighingTaskCreate : Type 0 where
  pub vehicle_id : Uuid
  pub customer_id : Option Uuid
  pub weighing_direction : WeighingDirection
  pub cargo_type : CargoType
  pub cargo_name : Option String
  pub cargo_remark : Option String

pub record TareWeightInput : Type 0 where
  pub weight_tons : Decimal
  pub remark : Option String

pub record GrossWeightInput : Type 0 where
  pub weight_tons : Decimal
  pub remark : Option String

pub record ReweighInput : Type 0 where
  pub weight_tons : Decimal
  pub remark : String

pub record CancelWeighingTaskInput : Type 0 where
  pub reason : String

pub record DeleteEntityInput : Type 0 where
  pub reason : String
