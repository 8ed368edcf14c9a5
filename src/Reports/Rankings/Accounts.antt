-- ===== src/Reports/Rankings/Accounts.antt =====
-- A ranking accounts for every task that it is made of, and for the whole of their weight.
use timber_ops.Prelude.{
  String, Bool, ◌≡◌, refl, sym, ap, ◌∙◌, Option, none, some, List, [], ◌∷◌, map, length, lookup,
  all, not, is_none, true, false, arith,
}
use timber_ops.Prelude.Int.{◌+ℤ◌, int_laws}
use timber_ops.Prelude.Sorting.{order_by}
use timber_ops.Prelude.Totals.{
  Addition, counts, amounts, total, group_total, group_by, total-map, total-cong, total-order_by,
  total-group_by, length-total,
}
use timber_ops.Domain.Enums.{CargoType, cargo_type_eq}
use timber_ops.Domain.Decimal.{Tons}
use timber_ops.Store.Rows.{Uuid, WeighingTask, Vehicle}
use timber_ops.Store.Db.{Db}
use timber_ops.Reports.Figures.{sum_weights, add_column, decimal_or}
use timber_ops.Reports.Rankings.{
  CargoWeightRankingItem, VehicleTransportRankingItem, ranked, cargo_item, cargo_le, cargo_ranking,
  Haul, joined, join_vehicles, ranked_hauls, vehicle_item, vehicle_le, vehicle_key_eq,
  vehicle_ranking,
}

abbrev pub net_of : Uuid × WeighingTask → Tons
net_of r = decimal_or r.1.net_weight_tons

pub add_column_or : (a b : Option Tons) → decimal_or (add_column a b) ≡ decimal_or a +ℤ decimal_or b
add_column_or none none = omega int_laws
add_column_or none (some b) = omega int_laws
add_column_or (some a) none = omega int_laws
add_column_or (some a) (some b) = refl

-- SQL's SUM, with 0 for NULL, is the sum of the weights with 0 for each NULL.
pub sum_weights-total :
    (rows : List (Uuid × WeighingTask)) → decimal_or (sum_weights rows) ≡ total amounts net_of rows
sum_weights-total [] = refl
sum_weights-total (r ∷ rows) =
    add_column_or r.1.net_weight_tons (sum_weights rows)
    ∙ ap (λ t. net_of r +ℤ t) (sum_weights-total rows)

-- The vehicle of a task is in the table.
abbrev pub has_vehicle : Db → Uuid × WeighingTask → Bool
has_vehicle db r = not (is_none (lookup r.1.vehicle_id db.vehicles))

-- Where each task finds its vehicle, the join drops no task.
join_vehicles-total :
    {M : Type 0} (s : Addition M) (w : Uuid × WeighingTask → M) (db : Db)
    (rows : List (Uuid × WeighingTask))
    → all (has_vehicle db) rows ≡ true
    → total s (λ h. w h.1) (join_vehicles db rows) ≡ total s w rows
join_vehicles-total s w db [] h = refl
join_vehicles-total s w db (r ∷ rows) h =
    found (lookup r.1.vehicle_id db.vehicles) (ground arith)
    ∙ ap (s.plus (w r)) (join_vehicles-total s w db rows (ground arith))
  where
    found :
        (o : Option Vehicle)
        → is_none o ≡ false
        → total s (λ h. w h.1) (joined r o (join_vehicles db rows))
          ≡ s.plus (w r) (total s (λ h. w h.1) (join_vehicles db rows))
    found none e = cc
    found (some v) e = refl

module _ (text_le : String → String → Bool) where
  -- any figure of the rows of a ranking that is added up over the tasks
  cargo_figure :
      {M : Type 0} (s : Addition M) (w : Uuid × WeighingTask → M) (v : CargoWeightRankingItem → M)
      (rows : List (Uuid × WeighingTask))
      → ((g : CargoType × List (Uuid × WeighingTask))
          → v (cargo_item text_le (ranked g)) ≡ total s w g.1)
      → total s v (cargo_ranking text_le rows) ≡ total s w rows
  unfolding cargo_ranking
  cargo_figure s w v rows h =
      let groups = group_by (λ (r : Uuid × WeighingTask). r.1.cargo_type) rows in
      total-map s v (cargo_item text_le) (order_by (cargo_le text_le) (map ranked groups))
      ∙ total-order_by s (λ r. v (cargo_item text_le r)) (cargo_le text_le) (map ranked groups)
      ∙ total-map s (λ r. v (cargo_item text_le r)) ranked groups
      ∙ total-cong s _ (group_total (λ r. r.1.cargo_type) s w) groups h
      ∙ total-group_by (λ r. r.1.cargo_type) s w rows

  pub cargo_ranking-adds_up :
      (rows : List (Uuid × WeighingTask))
      → (total counts (λ i. i.completed_task_count) (cargo_ranking text_le rows) ≡ length rows)
        × (total amounts (λ i. i.total_net_weight_tons) (cargo_ranking text_le rows)
            ≡ decimal_or (sum_weights rows))
  cargo_ranking-adds_up rows = (
    cargo_figure counts (λ _. 1) (λ i. i.completed_task_count) rows (λ g. length-total g.1)
        ∙ sym (length-total rows),
    cargo_figure amounts net_of (λ i. i.total_net_weight_tons) rows (λ g. sum_weights-total g.1)
        ∙ sym (sum_weights-total rows),
  )

  vehicle_figure :
      {M : Type 0} (s : Addition M) (w : Uuid × WeighingTask → M)
      (v : VehicleTransportRankingItem → M) (db : Db) (rows : List (Uuid × WeighingTask))
      → ((g : (Uuid × String) × List Haul)
          → v (vehicle_item text_le (ranked_hauls g)) ≡ total s (λ h. w h.1) g.1)
      → all (has_vehicle db) rows ≡ true
      → total s v (vehicle_ranking text_le db rows) ≡ total s w rows
  unfolding vehicle_ranking
  vehicle_figure s w v db rows h found =
      let hauls = join_vehicles db rows in
      let groups = group_by (λ (x : Haul). x.0) hauls in
      total-map s v (vehicle_item text_le) (order_by (vehicle_le text_le) (map ranked_hauls groups))
      ∙ total-order_by s (λ r. v (vehicle_item text_le r)) (vehicle_le text_le)
          (map ranked_hauls groups)
      ∙ total-map s (λ r. v (vehicle_item text_le r)) ranked_hauls groups
      ∙ total-cong s _ (group_total (λ (x : Haul). x.0) s (λ x. w x.1)) groups h
      ∙ total-group_by (λ (x : Haul). x.0) s (λ x. w x.1) hauls
      ∙ join_vehicles-total s w db rows found

  pub vehicle_ranking-adds_up :
      (db : Db) (rows : List (Uuid × WeighingTask))
      → all (has_vehicle db) rows ≡ true
      → (total counts (λ i. i.completed_task_count) (vehicle_ranking text_le db rows) ≡ length rows)
        × (total amounts (λ i. i.total_net_weight_tons) (vehicle_ranking text_le db rows)
            ≡ decimal_or (sum_weights rows))
  vehicle_ranking-adds_up db rows found = (
    vehicle_figure counts (λ _. 1) (λ i. i.completed_task_count) db rows
          (λ g. length-total (map (λ h. h.1) g.1) ∙ total-map counts (λ _. 1) (λ h. h.1) g.1) found
        ∙ sym (length-total rows),
    vehicle_figure amounts net_of (λ i. i.total_net_weight_tons) db rows
          (λ g. sum_weights-total (map (λ h. h.1) g.1) ∙ total-map amounts net_of (λ h. h.1) g.1)
          found
        ∙ sym (sum_weights-total rows),
  )
