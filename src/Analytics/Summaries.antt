-- ===== src/Analytics/Summaries.antt =====
-- `get_today_weighing_summary` and `get_cargo_weight_summary` of AnalyticsService.
pub mod Sums
use timber_ops.Prelude.{ℕ, ◌==◌, Option, none, some, List, [], ◌∷◌, length, if◌then◌else◌}
use timber_ops.Prelude.Int.{pos, ◌+ℤ◌}
use timber_ops.Domain.Enums.{CargoType, cargo_type_eq}
use timber_ops.Domain.Decimal.{Tons}
use timber_ops.Domain.Errors.{Result, ok, ◌>>=◌}
use timber_ops.Domain.Days.{local_date}
use timber_ops.Store.Rows.{Uuid, WeighingTask}
use timber_ops.Store.Db.{Db, Env}
use timber_ops.Reports.Figures.{decimal_or}
use timber_ops.Analytics.{completed_tasks}
use timber_ops.Analytics.Overweight.{get_overweight_records}

-- The dictionaries that are returned.
pub record TodaySummary : Type 0 where
  pub date : ℕ
  pub completed_tasks_ : ℕ
  pub total_net_weight_tons : Tons
  pub coal_weight_tons : Tons
  pub ore_weight_tons : Tons
  pub timber_weight_tons : Tons
  pub overweight_events : ℕ

pub record CargoSummary : Type 0 where
  pub cargo_type : CargoType
  pub start_date : Option ℕ
  pub end_date : Option ℕ
  pub completed_tasks_ : ℕ
  pub total_net_weight_tons : Tons

abbrev pub no_totals : CargoType → Tons
no_totals c = pos 0

-- `cargo_totals[cargo_type] += net_weight`
abbrev pub add_to : CargoType → Tons → (CargoType → Tons) → CargoType → Tons
add_to cargo_type net_weight totals c = if c == cargo_type then totals c +ℤ net_weight else totals c

-- The loop over the tasks, with `total` and `cargo_totals`.
abbrev pub add_tasks :
    List (Uuid × WeighingTask) → Tons → (CargoType → Tons) → Tons × (CargoType → Tons)
add_tasks [] total cargo_totals = (total, cargo_totals)
add_tasks ((_, t) ∷ tasks) total cargo_totals =
    let net_weight = decimal_or t.net_weight_tons in
    add_tasks tasks (total +ℤ net_weight) (add_to t.cargo_type net_weight cargo_totals)

unfoldable pub get_today_weighing_summary : Env → Db → Result TodaySummary
unfolding completed_tasks get_overweight_records
get_today_weighing_summary env db =
    let today = local_date env.now in
    do
      tasks ← completed_tasks (some today) (some today) none db
      overweight_events ← get_overweight_records (some today) (some today) db
      let totals = add_tasks tasks (pos 0) no_totals
      ok (record {
        date = today;
        completed_tasks_ = length tasks;
        total_net_weight_tons = totals.0;
        coal_weight_tons = totals.1 CargoType.coal;
        ore_weight_tons = totals.1 CargoType.ore;
        timber_weight_tons = totals.1 CargoType.timber;
        overweight_events = length overweight_events;
      })

-- Python's `sum` with its start.
abbrev pub sum_from : Tons → List (Uuid × WeighingTask) → Tons
sum_from start [] = start
sum_from start ((_, t) ∷ tasks) = sum_from (start +ℤ decimal_or t.net_weight_tons) tasks

unfoldable pub get_cargo_weight_summary : CargoType → Option ℕ → Option ℕ → Db → Result CargoSummary
unfolding completed_tasks
get_cargo_weight_summary cargo_type start_date end_date db = do
  tasks ← completed_tasks start_date end_date (some cargo_type) db
  ok (record {
    cargo_type = cargo_type;
    start_date = start_date;
    end_date = end_date;
    completed_tasks_ = length tasks;
    total_net_weight_tons = sum_from (pos 0) tasks;
  })
