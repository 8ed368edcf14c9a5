-- ===== src/Reports/Rankings.antt =====
-- The rankings by cargo and by vehicle: GROUP BY, and ORDER BY of the totals.
pub mod Accounts
use timber_ops.Prelude.{
  ℕ, String, ◌≡◌, ◌↔◌, Bool, true, false, ◌&&◌, ◌||◌, ◌==◌, nat_eq, string_eq, Equality, ltb,
  Option, none, some, List, [], ◌∷◌, ◌++◌, map, length, where_, lookup, arith,
}
use timber_ops.Prelude.Int.{ltb_ℤ, int_eq}
use timber_ops.Prelude.Sorting.{order_by}
use timber_ops.Prelude.Totals.{group_by}
use timber_ops.Domain.Enums.{CargoType, cargo_type_eq, cargo_type_value}
use timber_ops.Domain.Decimal.{Tons}
use timber_ops.Store.Rows.{Uuid, WeighingTask, Vehicle}
use timber_ops.Store.Db.{Db}
use timber_ops.Reports.Figures.{sum_weights, decimal_or}

pub record CargoWeightRankingItem : Type 0 where
  pub cargo_type : CargoType
  pub completed_task_count : ℕ
  pub total_net_weight_tons : Tons

pub record VehicleTransportRankingItem : Type 0 where
  pub vehicle_id : Uuid
  pub plate_number : String
  pub completed_task_count : ℕ
  pub total_net_weight_tons : Tons

-- A row of a grouped query: the key, the count and the total.
pub record Ranked (K : Type 0) : Type 0 where
  pub key : K
  pub task_count : ℕ
  pub total_weight : Option Tons

abbrev pub ranked : {K : Type 0} → K × List (Uuid × WeighingTask) → Ranked K
ranked (k, rows) = record { key = k; task_count = length rows; total_weight = sum_weights rows }

-- `total DESC`, in which PostgreSQL puts a NULL first
abbrev pub heavier : Option Tons → Option Tons → Bool
heavier none none = false
heavier none (some b) = true
heavier (some a) none = false
heavier (some a) (some b) = ltb_ℤ b a

abbrev pub as_heavy : Option Tons → Option Tons → Bool
as_heavy none none = true
as_heavy (some a) (some b) = a == b
as_heavy _ _ = false

abbrev pair_beq : Uuid × String → Uuid × String → Bool
pair_beq a b = a.0 == b.0 && a.1 == b.1

pub pair_beq_iff : (a b : Uuid × String) → (pair_beq a b ≡ true) ↔ (a ≡ b)
pair_beq_iff a b = ground (arith, string_eq.same_iff a.1 b.1)

instance abbrev pub vehicle_key_eq : Equality (Uuid × String)
vehicle_key_eq = record { same = pair_beq; same_iff = pair_beq_iff }

-- A row of the join with the vehicles: what GROUP BY reads of the vehicle, and the task.
abbrev pub Haul : Type 0
Haul = (Uuid × String) × (Uuid × WeighingTask)

abbrev pub joined : Uuid × WeighingTask → Option Vehicle → List Haul → List Haul
joined r none rest = rest
joined r (some v) rest = ((r.1.vehicle_id, v.plate_number), r) ∷ rest

abbrev pub join_vehicles : Db → List (Uuid × WeighingTask) → List Haul
join_vehicles db [] = []
join_vehicles db (r ∷ rs) = joined r (lookup r.1.vehicle_id db.vehicles) (join_vehicles db rs)

abbrev pub ranked_hauls : (Uuid × String) × List Haul → Ranked (Uuid × String)
ranked_hauls (k, hauls) = ranked (k, map (λ h. h.1) hauls)

-- How the database compares texts is its collation, which is a parameter.
module _ (text_le : String → String → Bool) where
  -- `ORDER BY total DESC, cargo_type`
  abbrev pub cargo_le : Ranked CargoType → Ranked CargoType → Bool
  cargo_le a b =
      heavier a.total_weight b.total_weight
      || (as_heavy a.total_weight b.total_weight
          && text_le (cargo_type_value a.key) (cargo_type_value b.key))

  abbrev pub cargo_item : Ranked CargoType → CargoWeightRankingItem
  cargo_item r = record {
    cargo_type = r.key;
    completed_task_count = r.task_count;
    total_net_weight_tons = decimal_or r.total_weight;
  }

  -- `_cargo_weight_ranking`, `_cargo_ranking`
  unfoldable pub cargo_ranking : List (Uuid × WeighingTask) → List CargoWeightRankingItem
  cargo_ranking rows =
      map cargo_item (order_by cargo_le (map ranked (group_by (λ r. r.1.cargo_type) rows)))

  -- `ORDER BY total DESC, count DESC, plate_number`
  abbrev pub vehicle_le : Ranked (Uuid × String) → Ranked (Uuid × String) → Bool
  vehicle_le a b =
      heavier a.total_weight b.total_weight
      || (as_heavy a.total_weight b.total_weight
          && (ltb b.task_count a.task_count
              || (a.task_count == b.task_count && text_le a.key.1 b.key.1)))

  abbrev pub vehicle_item : Ranked (Uuid × String) → VehicleTransportRankingItem
  vehicle_item r = record {
    vehicle_id = r.key.0;
    plate_number = r.key.1;
    completed_task_count = r.task_count;
    total_net_weight_tons = decimal_or r.total_weight;
  }

  -- `_vehicle_transport_ranking` before its LIMIT, `_vehicle_ranking`
  unfoldable pub vehicle_ranking :
      Db → List (Uuid × WeighingTask) → List VehicleTransportRankingItem
  vehicle_ranking db rows =
      map vehicle_item
        (order_by vehicle_le (map ranked_hauls (group_by (λ h. h.0) (join_vehicles db rows))))
