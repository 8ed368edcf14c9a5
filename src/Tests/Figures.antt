-- ===== src/Tests/Figures.antt =====
-- The theorems on the dashboard and the reports, applied to a day with one completed task.
use timber_ops.Prelude.{◌+◌, ◌-◌, ◌≡◌, refl, String, Bool, true, some, none, List, map}
use timber_ops.Prelude.Int.{pos, ◌+ℤ◌}
use timber_ops.Prelude.Totals.{counts, amounts, total}
use timber_ops.Domain.Enums.{WeighingStatus}
use timber_ops.Domain.Errors.{ok}
use timber_ops.Domain.Days.{local_date}
use timber_ops.Store.Constraints.{satisfies}
use timber_ops.Reversal.Effects.{reversal_written}
use timber_ops.Reversal.{reverse}
use timber_ops.Weighing.Tasks.{get_task_for_update}
use timber_ops.Store.Session.{flush}
use timber_ops.Store.Db.{Db}
use timber_ops.Reports.Figures.{is_valid, count_of, decimal_or}
use timber_ops.Reports.Dashboard.{get_overview}
use timber_ops.Reports.Dashboard.Consistency.{count_in, get_overview-adds_up}
use timber_ops.Reports.Periods.{BusinessReport, ReportType, report_of, build_report, daily, monthly}
use timber_ops.Reports.Periods.Accounts.{build_report-adds_up}
use timber_ops.Reports.Periods.Days.{days_from}
use timber_ops.Reports.Periods.Months.{monthly-daily}
use timber_ops.Reports.Reversed.{reverse-daily}
use timber_ops.Tests.Fixtures.{env_at, done_db, done_task, undo_input, reversal}

-- A collation that tells nothing apart.
abbrev all_alike : String → String → Bool
all_alike a b = true

get_overview-adds_up_example :
    (total counts (λ i. i.count) (get_overview all_alike (env_at 9) done_db).status_distribution
      ≡ count_of (is_valid done_db) done_db)
    × ((get_overview all_alike (env_at 9) done_db).pending_task_count
          + count_in WeighingStatus.completed
              (get_overview all_alike (env_at 9) done_db).status_distribution
          + count_in WeighingStatus.cancelled
              (get_overview all_alike (env_at 9) done_db).status_distribution
        ≡ count_of (is_valid done_db) done_db)
    × (total counts
          (λ i. i.completed_task_count)
          (get_overview all_alike (env_at 9) done_db).cargo_weight_ranking
        ≡ (get_overview all_alike (env_at 9) done_db).today_completed_task_count)
    × (total amounts
          (λ i. i.total_net_weight_tons)
          (get_overview all_alike (env_at 9) done_db).cargo_weight_ranking
        ≡ (get_overview all_alike (env_at 9) done_db).today_completed_net_weight_tons)
get_overview-adds_up_example = get_overview-adds_up all_alike (env_at 9) done_db

done_ok : satisfies done_db ≡ true
unfolding satisfies
done_ok = refl

abbrev january : BusinessReport
january = report_of all_alike ReportType.monthly_ 719163 719194 done_db

january_returns : monthly all_alike (env_at 9) (some (pos 1970)) (some (pos 1)) done_db ≡ ok january
unfolding monthly
january_returns = refl

-- The month of today is the same.
this_month_returns : monthly all_alike (env_at 9) none none done_db ≡ ok january
unfolding monthly
this_month_returns = refl

january_built : build_report all_alike ReportType.monthly_ 719163 719194 done_db ≡ ok january
unfolding build_report
january_built = refl

build_report-adds_up_example :
    (total counts (λ i. i.completed_task_count) january.cargo_ranking_
      ≡ january.completed_task_count)
    × (total amounts (λ i. i.total_net_weight_tons) january.cargo_ranking_
        ≡ january.completed_net_weight_tons)
    × (total counts (λ i. i.completed_task_count) january.vehicle_ranking_
        ≡ january.completed_task_count)
    × (total amounts (λ i. i.total_net_weight_tons) january.vehicle_ranking_
        ≡ january.completed_net_weight_tons)
build_report-adds_up_example =
    build_report-adds_up all_alike ReportType.monthly_ 719163 719194 done_db january done_ok
      january_built

monthly-daily_example :
    (ds : List BusinessReport) × (map
        (λ d. daily all_alike (env_at 9) (some d) done_db)
        (days_from january.period_start (january.period_end + 1 - january.period_start))
      ≡ map ok ds)
    × (january.task_count ≡ total counts (λ d. d.task_count) ds)
    × (january.completed_task_count ≡ total counts (λ d. d.completed_task_count) ds)
    × (january.completed_net_weight_tons ≡ total amounts (λ d. d.completed_net_weight_tons) ds)
    × (january.income ≡ total amounts (λ d. d.income) ds)
monthly-daily_example =
    monthly-daily all_alike (env_at 9) (some (pos 1970)) (some (pos 1)) done_db january
      january_returns

abbrev reversed_day : Db
reversed_day =
    reversal_written (env_at 8) 20 undo_input 2 (λ d. d) done_db (80, reversal) done_db done_task
      done_db

reversal_returns :
    reverse (env_at 8) 20 undo_input 2 (λ d. d) done_db ≡ ok ((80, reversal), reversed_day)
unfolding reverse get_task_for_update flush
reversal_returns = refl

abbrev first_day : Db → BusinessReport
first_day db = report_of all_alike ReportType.daily_ 719163 719164 db

before_returns : daily all_alike (env_at 9) (some (local_date 7)) done_db ≡ ok (first_day done_db)
unfolding daily
before_returns = refl

after_returns :
    daily all_alike (env_at 9) (some (local_date 7)) reversed_day ≡ ok (first_day reversed_day)
unfolding daily
after_returns = refl

reverse-daily_example :
    ((first_day done_db).completed_task_count ≡ (first_day reversed_day).completed_task_count + 1)
    × ((first_day done_db).completed_net_weight_tons
        ≡ (first_day reversed_day).completed_net_weight_tons
          +ℤ decimal_or done_task.net_weight_tons)
reverse-daily_example =
    reverse-daily all_alike (env_at 8) (env_at 9) 20 undo_input 2 done_db reversed_day
      (80, reversal) done_task 7 (first_day done_db) (first_day reversed_day) done_ok refl refl refl
      reversal_returns before_returns after_returns
