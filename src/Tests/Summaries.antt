-- ===== src/Tests/Summaries.antt =====
-- The theorems on the analytics and on the audit trail, applied to a day with one task, overweight
-- at first.
use timber_ops.Prelude.{
  ℕ, ◌+◌, Bool, ◌≡◌, refl, String, true, some, none, List, [], ◌∷◌, ◌++◌, map, where_, nat_eq,
  arith,
}
use timber_ops.Prelude.Int.{pos}
use timber_ops.Prelude.Sorting.{order_by}
use timber_ops.Domain.Enums.{CargoType, WeighingStatus, WeightResult, WeightType, WeightSource}
use timber_ops.Domain.Errors.{ok}
use timber_ops.Domain.Days.{local_date}
use timber_ops.Domain.Decimal.{Money}
use timber_ops.Store.Rows.{WeighingRecord, AuditLog}
use timber_ops.Audit.{AuditFilter, AuditLogRead, list_logs, log_le, target_kind}
use timber_ops.Audit.Listing.{row_read, is_asked, list_logs_lem}
use timber_ops.Store.Db.{Db}
use timber_ops.Store.Constraints.{satisfies}
use timber_ops.System.Requests.{run}
use timber_ops.Reports.Dashboard.{get_overview}
use timber_ops.Analytics.Overweight.{OverweightRecord}
use timber_ops.Analytics.Summaries.{
  TodaySummary, CargoSummary, get_today_weighing_summary, get_cargo_weight_summary,
}
use timber_ops.Analytics.Agreement.{get_today_weighing_summary-get_overview}
use timber_ops.Tests.Fixtures.{env_at, start, weighed, completion, done_db}

abbrev all_alike : String → String → Bool
all_alike a b = true

abbrev today_db : Db
today_db = run (weighed ++ completion) start

get_today_weighing_summary-get_overview_example :
    (s : TodaySummary) × (get_today_weighing_summary (env_at 9) today_db ≡ ok s)
    × (s.date ≡ (get_overview all_alike (env_at 9) today_db).business_date)
    × (s.completed_tasks_ ≡ (get_overview all_alike (env_at 9) today_db).today_completed_task_count)
    × (s.total_net_weight_tons
        ≡ (get_overview all_alike (env_at 9) today_db).today_completed_net_weight_tons)
    × ((c : CargoSummary) × (get_cargo_weight_summary CargoType.coal
            (some (local_date 9))
            (some (local_date 9))
            today_db
          ≡ ok c)
        × (c.total_net_weight_tons ≡ s.coal_weight_tons))
    × ((c : CargoSummary) × (get_cargo_weight_summary CargoType.ore
            (some (local_date 9))
            (some (local_date 9))
            today_db
          ≡ ok c)
        × (c.total_net_weight_tons ≡ s.ore_weight_tons))
    × ((c : CargoSummary) × (get_cargo_weight_summary CargoType.timber
            (some (local_date 9))
            (some (local_date 9))
            today_db
          ≡ ok c)
        × (c.total_net_weight_tons ≡ s.timber_weight_tons))
get_today_weighing_summary-get_overview_example =
    get_today_weighing_summary-get_overview all_alike (env_at 9) (weighed ++ completion) start refl
      (omega arith)

abbrev reading : ℕ → WeightType → ℕ → WeighingRecord
reading n weight_type weight_tons = record {
  weighing_task_id = 20;
  weight_type = weight_type;
  weight_tons = pos weight_tons;
  sequence_no = n;
  recorded_at = n + 3;
  recorded_by = some 2;
  source = WeightSource.manual;
  remark = none;
  created_at = n + 3;
}

abbrev overweight_db : Db
overweight_db = record done_db {
  records =
      (30, reading 1 WeightType.tare 15000)
      ∷ (50, reading 2 WeightType.gross 50000)
      ∷ (60, reading 3 WeightType.reweigh 49500)
      ∷ (65, reading 4 WeightType.reweigh 48000)
      ∷ [];
}

-- Overweight at times 5 and 6, and normal in the end.
abbrev over_once : OverweightRecord
over_once = record {
  plate_number = "A-100";
  task_no = "W1";
  cargo_type = CargoType.timber;
  first_overweight_weight_tons = pos 50000;
  allowed_gross_weight_tons = pos 49000;
  overweight_tons = pos 1000;
  event_time = 5;
  final_status = WeighingStatus.completed;
  final_weight_result = WeightResult.normal;
  finally_completed = true;
}

-- Entries about a vehicle, about a user, whose type has no alias, and about a fee.
abbrev entry : ℕ → String → ℕ → AuditLog
entry at target_type id = record {
  operator_id = some 2;
  action = "TEST";
  target_type = target_type;
  target_id = some id;
  before_value = none;
  after_value = none;
  reason = none;
  created_at = at;
}

abbrev audited_db : Db
audited_db = record done_db {
  audit_logs =
      (91, entry 5 "Vehicle" 1) ∷ (92, entry 6 "User" 2) ∷ (93, entry 7 "BILLING_RECORD" 70) ∷ [];
}

abbrev an_id : ℕ → String
an_id id = "id"

abbrev a_fee : Money → String
a_fee fee_amount = "fee"

abbrev of_today : AuditFilter
of_today = record {
  start_date = some 719163;
  end_date = some 719163;
  operator_id = none;
  action = some "TEST";
  target_type = none;
}

abbrev seen : ℕ → ℕ → String → ℕ → String → AuditLogRead
seen id at target_type target_id display = record {
  id = id;
  operator_id = some 2;
  operator_name = some "Clerk";
  action = "TEST";
  target_type = target_type;
  target_id = some target_id;
  target_display = some display;
  reason = none;
  before_value = none;
  after_value = none;
  created_at = at;
}

abbrev trail : List AuditLogRead
trail =
    seen 93 7 "BILLING_RECORD" 70 "W1 · A-100 · fee"
    ∷ seen 92 6 "User" 2 "id"
    ∷ seen 91 5 "Vehicle" 1 "A-100"
    ∷ []

audited_ok : satisfies audited_db ≡ true
unfolding satisfies
audited_ok = refl

trail_returns : list_logs an_id a_fee of_today audited_db ≡ ok trail
unfolding list_logs order_by target_kind
trail_returns = refl

list_logs_lem_example :
    trail
    ≡ map
        (row_read an_id a_fee audited_db)
        (order_by log_le (where_ (is_asked of_today) audited_db.audit_logs))
list_logs_lem_example = list_logs_lem an_id a_fee of_today audited_db trail audited_ok trail_returns
