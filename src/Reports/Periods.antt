-- ===== src/Reports/Periods.antt =====
-- ReportService of backend/app/services/report_service.py, without the layout of its workbook.
pub mod Accounts
pub mod Days
pub mod Months
use timber_ops.Prelude.{
  ℕ, ◌+◌, ◌-◌, String, Bool, not, ◌&&◌, ◌||◌, Option, none, some, List, is_none, where_, true,
  false, if◌then◌else◌,
}
use timber_ops.Prelude.Int.{ℤ, pos, pos_part, ltb_ℤ}
use timber_ops.Domain.Errors.{
  Result, ok, err, business_rule, value_error, overflow_error, ◌>>=◌, ◌>>◌, raise_if,
}
use timber_ops.Domain.Days.{local_date, local_day_start_utc, overflows_by}
use timber_ops.Domain.Days.Calendar.{days_in_month, first_of_month, year_of, month_of}
use timber_ops.Domain.Decimal.{Tons, Money}
use timber_ops.Store.Db.{Db, Env}
use timber_ops.Reports.Figures.{is_created_in, is_completed_in, count_of, net_weight_in, income_in}
use timber_ops.Reports.Rankings.{
  CargoWeightRankingItem, VehicleTransportRankingItem, cargo_ranking, vehicle_ranking,
}

pub data ReportType : Type 0 where
  daily_ monthly_ : ReportType

-- The items of its rankings have the fields of those of the dashboard.
pub record BusinessReport : Type 0 where
  pub report_type : ReportType
  pub period_start : ℕ
  pub period_end : ℕ
  pub task_count : ℕ
  pub completed_task_count : ℕ
  pub completed_net_weight_tons : Tons
  pub income : Money
  pub cargo_ranking_ : List CargoWeightRankingItem
  pub vehicle_ranking_ : List VehicleTransportRankingItem

-- `report_date or self._local_today()`
abbrev pub selected_date : Env → Option ℕ → ℕ
selected_date env none = local_date env.now
selected_date env (some date) = date

-- The year and the month that are asked for, or those of today.
abbrev pub selected_month : Env → Option ℤ → Option ℤ → ℤ × ℤ
selected_month env (some year) (some month) = (year, month)
selected_month env _ _ = (pos (year_of (local_date env.now)), pos (month_of (local_date env.now)))

abbrev pub outside : ℕ → ℕ → ℤ → Bool
outside low high n = ltb_ℤ n (pos low) || ltb_ℤ (pos high) n

-- The collation is a parameter.
module _ (text_le : String → String → Bool) where
  abbrev pub report_of : ReportType → ℕ → ℕ → Db → BusinessReport
  report_of report_type period_start period_end_exclusive db =
      let start_utc = local_day_start_utc period_start in
      let end_utc = local_day_start_utc period_end_exclusive in
      let completed = where_ (is_completed_in start_utc end_utc db) db.tasks in
      record {
        report_type = report_type;
        period_start = period_start;
        period_end = period_end_exclusive - 1;
        task_count = count_of (is_created_in start_utc end_utc db) db;
        completed_task_count = count_of (is_completed_in start_utc end_utc db) db;
        completed_net_weight_tons = net_weight_in start_utc end_utc db;
        income = income_in start_utc end_utc db;
        cargo_ranking_ = cargo_ranking text_le completed;
        vehicle_ranking_ = vehicle_ranking text_le db completed;
      }

  -- `_build_report`; a period that has no start or no end in Python's calendar overflows.
  unfoldable pub build_report : ReportType → ℕ → ℕ → Db → Result BusinessReport
  build_report report_type period_start period_end_exclusive db = do
    raise_if (overflows_by (some period_start) (some (period_end_exclusive - 1))) overflow_error
    ok (report_of report_type period_start period_end_exclusive db)

  unfoldable pub daily : Env → Option ℕ → Db → Result BusinessReport
  unfolding build_report
  daily env report_date db =
      let selected = selected_date env report_date in
      build_report ReportType.daily_ selected (selected + 1) db

  unfoldable pub monthly : Env → Option ℤ → Option ℤ → Db → Result BusinessReport
  unfolding build_report days_in_month first_of_month year_of month_of
  monthly env year month db = do
    raise_if (if is_none year then not (is_none month) else is_none month) business_rule
    let chosen = selected_month env year month
    raise_if (outside 1 12 chosen.1) business_rule
    raise_if (outside 1 9999 chosen.0) value_error
    let y = pos_part chosen.0
    let m = pos_part chosen.1
    build_report ReportType.monthly_ (first_of_month y m) (first_of_month y m + days_in_month y m)
        db
