-- ===== src/Reports/Dashboard.antt =====
-- DashboardService of backend/app/services/dashboard_service.py.
pub mod Consistency
use timber_ops.Prelude.{
  ℕ, zero, suc, ◌+◌, String, Bool, not, ◌&&◌, ◌||◌, ◌==◌, ◌≡◌, ◌↔◌, Equality, Option, none, some,
  List, [], ◌∷◌, map, length, where_, if◌then◌else◌, arith, leb,
}
use timber_ops.Prelude.Totals.{group_by}
use timber_ops.Domain.Enums.{WeighingStatus, weighing_status_eq}
use timber_ops.Domain.Errors.{Result, ok, overflow_error, ◌>>◌, raise_if}
use timber_ops.Domain.Days.{local_date, local_day_start_utc, overflows_by}
use timber_ops.Domain.Decimal.{Tons, Money}
use timber_ops.Store.Rows.{Uuid, Time, WeighingTask}
use timber_ops.Store.Db.{Db, Env}
use timber_ops.Reports.Figures.{
  task_is_not_reversed, is_valid, is_created_in, is_completed_in, count_of, net_weight_in,
  income_in,
}
use timber_ops.Reports.Rankings.{
  CargoWeightRankingItem, VehicleTransportRankingItem, cargo_ranking, vehicle_ranking,
}

pub record StatusDistributionItem : Type 0 where
  pub status : WeighingStatus
  pub count : ℕ

pub record DashboardOverview : Type 0 where
  pub business_date : ℕ
  pub today_task_count : ℕ
  pub today_completed_task_count : ℕ
  pub pending_task_count : ℕ
  pub today_completed_net_weight_tons : Tons
  pub today_income : Money
  pub status_distribution : List StatusDistributionItem
  pub cargo_weight_ranking : List CargoWeightRankingItem
  pub vehicle_transport_ranking : List VehicleTransportRankingItem

-- `for status in WeighingStatus`
abbrev pub statuses : List WeighingStatus
statuses =
    WeighingStatus.wait_tare ∷ WeighingStatus.tare_completed ∷ WeighingStatus.wait_gross
    ∷ WeighingStatus.gross_completed ∷ WeighingStatus.completed ∷ WeighingStatus.cancelled ∷ []

-- `counts.get(status, 0)`
abbrev pub get_count : {A K : Type 0} ⦃e : Equality K⦄ → K → List (K × List A) → ℕ
get_count key [] = 0
get_count key ((k, rows) ∷ gs) =
    let rest = get_count key gs in if k == key then length rows else rest

-- `_status_distribution`
unfoldable pub status_distribution : Db → List StatusDistributionItem
unfolding task_is_not_reversed
status_distribution db =
    let groups = group_by (λ r. r.1.status) (where_ (is_valid db) db.tasks) in
    map (λ s. record { status = s; count = get_count s groups }) statuses

-- A task that is neither completed nor cancelled.
abbrev pub is_pending : Db → Uuid × WeighingTask → Bool
is_pending db r =
    is_valid db r
    && not (r.1.status == WeighingStatus.completed || r.1.status == WeighingStatus.cancelled)

-- `LIMIT n`
abbrev pub take {ℓ} : {A : Type ℓ} → ℕ → List A → List A
take zero xs = []
take (suc n) [] = []
take (suc n) (x ∷ xs) = x ∷ take n xs

-- The tasks of `_vehicle_transport_ranking`, of all time.
abbrev pub is_transport : Db → Uuid × WeighingTask → Bool
is_transport db r = is_valid db r && r.1.status == WeighingStatus.completed

-- The collation is a parameter. The day of a clock ends where the next one begins.
module _ (text_le : String → String → Bool) where
  unfoldable pub get_overview : Env → Db → DashboardOverview
  unfolding status_distribution cargo_ranking vehicle_ranking
  get_overview env db =
      let business_date = local_date env.now in
      let start_utc = local_day_start_utc business_date in
      let end_utc = local_day_start_utc (business_date + 1) in
      record {
        business_date = business_date;
        today_task_count = count_of (is_created_in start_utc end_utc db) db;
        today_completed_task_count = count_of (is_completed_in start_utc end_utc db) db;
        pending_task_count = count_of (is_pending db) db;
        today_completed_net_weight_tons = net_weight_in start_utc end_utc db;
        today_income = income_in start_utc end_utc db;
        status_distribution = status_distribution db;
        cargo_weight_ranking =
            cargo_ranking text_le (where_ (is_completed_in start_utc end_utc db) db.tasks);
        vehicle_transport_ranking =
            take 10 (vehicle_ranking text_le db (where_ (is_transport db) db.tasks));
      }
