-- ===== src/Reports/Periods/Months.antt =====
-- The report of a month adds up the daily reports of its days.
use timber_ops.Prelude.{
  ℕ, zero, suc, ◌+◌, ◌-◌, ◌≤◌, ◌<◌, String, Bool, ◌≡◌, refl, sym, ap, ◌∙◌, false, List, [], ◌∷◌,
  map, where_, Option, some, is_none, not, if◌then◌else◌, arith,
}
use timber_ops.Prelude.Int.{ℤ, ◌+ℤ◌, pos_part}
use timber_ops.Prelude.Totals.{
  Addition, counts, amounts, total, total-map, total-cong, length-total,
}
use timber_ops.Domain.Days.{last_date, overflows_by}
use timber_ops.Domain.Days.Calendar.{days_in_month, first_of_month}
use timber_ops.Domain.Errors.{ok, business_rule, value_error, overflow_error, raise_if-eq-ok}
use timber_ops.Store.Rows.{Uuid, BillingRecord}
use timber_ops.Store.Db.{Db, Env}
use timber_ops.Reports.Figures.{decimal_or, sum_fees}
use timber_ops.Reports.Rankings.Accounts.{add_column_or, net_of, sum_weights-total}
use timber_ops.Reports.Periods.{
  ReportType, BusinessReport, report_of, build_report, daily, monthly, selected_month, outside,
}
use timber_ops.Reports.Periods.Days.{
  days_from, figure-days, created_test, completed_test, income_test, created-IsPeriodic,
  completed-IsPeriodic, income-IsPeriodic, IsPeriodic,
}

fees-total :
    (rows : List (Uuid × BillingRecord))
    → decimal_or (sum_fees rows) ≡ total amounts (λ b. b.1.fee_amount) rows
fees-total [] = refl
fees-total (r ∷ rows) =
    add_column_or (some r.1.fee_amount) (sum_fees rows)
    ∙ ap (λ t. r.1.fee_amount +ℤ t) (fees-total rows)

module _ (text_le : String → String → Bool) (db : Db) where
  -- The reports of the days.
  abbrev day_report : ℕ → BusinessReport
  day_report d = report_of text_le ReportType.daily_ d (d + 1) db

  daily_returns :
      (env : Env) (d : ℕ)
      → 1 < d
      → d < last_date
      → daily text_le env (some d) db ≡ ok (day_report d)
  unfolding daily build_report
  daily_returns env d h k =
      let inside : overflows_by (some d) (some (d + 1 - 1)) ≡ false = ground arith in rw inside refl

  days_return :
      (env : Env) (a n : ℕ)
      → 1 < a
      → a + n ≤ last_date
      → map (λ d. daily text_le env (some d) db) (days_from a n)
        ≡ map ok (map day_report (days_from a n))
  days_return env a zero h k = refl
  days_return env a (suc n) h k =
      rw (daily_returns env a h (omega arith))
        (ap (λ rs. ok (day_report a) ∷ rs) (days_return env (a + 1) n (omega arith) (omega arith)))

  -- each figure of the report of a period, and the same figures of its days
  module _ (a n : ℕ) where
    abbrev days : List BusinessReport
    days = map day_report (days_from a n)

    abbrev whole : ReportType → BusinessReport
    whole t = report_of text_le t a (a + n) db

    -- a figure that adds up, over the rows of an interval of dates, what each row has
    figure_of_days :
        {A M : Type 0} (s : Addition M) (w : A → M) (test : ℕ → ℕ → A → Bool) (rows : List A)
        (v : BusinessReport → M)
        → IsPeriodic test
        → ((t : ReportType) (b c : ℕ)
            → v (report_of text_le t b c db) ≡ total s w (where_ (test b c) rows))
        → (t : ReportType) → v (whole t) ≡ total s v days
    figure_of_days s w test rows v periodic reads t =
        reads t a (a + n)
        ∙ figure-days s w test periodic rows a n (a + n) refl
        ∙ total-cong s _ (λ d. v (day_report d)) (days_from a n)
            (λ d. sym (reads ReportType.daily_ d (d + 1)))
        ∙ sym (total-map s v day_report (days_from a n))

    abbrev pub AddsUp : BusinessReport → List BusinessReport → Type 0
    AddsUp r ds =
        (r.task_count ≡ total counts (λ d. d.task_count) ds)
        × (r.completed_task_count ≡ total counts (λ d. d.completed_task_count) ds)
        × (r.completed_net_weight_tons ≡ total amounts (λ d. d.completed_net_weight_tons) ds)
        × (r.income ≡ total amounts (λ d. d.income) ds)

    whole-AddsUp : (t : ReportType) → AddsUp (whole t) days
    whole-AddsUp t = (
      figure_of_days counts (λ _. 1) (created_test db) db.tasks (λ r. r.task_count)
          (created-IsPeriodic db) (λ t b c. length-total (where_ (created_test db b c) db.tasks)) t,
      figure_of_days counts (λ _. 1) (completed_test db) db.tasks (λ r. r.completed_task_count)
          (completed-IsPeriodic db)
          (λ t b c. length-total (where_ (completed_test db b c) db.tasks)) t,
      figure_of_days amounts net_of (completed_test db) db.tasks (λ r. r.completed_net_weight_tons)
          (completed-IsPeriodic db)
          (λ t b c. sum_weights-total (where_ (completed_test db b c) db.tasks)) t,
      figure_of_days amounts (λ b. b.1.fee_amount) (income_test db) db.billing_records
          (λ r. r.income) (income-IsPeriodic db)
          (λ t b c. fees-total (where_ (income_test db b c) db.billing_records)) t,
    )

    pub whole-days :
        (env : Env) (t : ReportType)
        → 1 < a
        → 1 ≤ n
        → a + n ≤ last_date
        → (ds : List BusinessReport) × (map
              (λ d. daily text_le env (some d) db)
              (days_from (whole t).period_start ((whole t).period_end + 1 - (whole t).period_start))
            ≡ map ok ds)
          × AddsUp (whole t) ds
    whole-days env t h some_days k =
        let long : a + n - 1 + 1 - a ≡ n = omega arith in
        (days, rw long (days_return env a n h k), whole-AddsUp t)

days_in_month-pos : (y m : ℕ) → 1 ≤ days_in_month y m
unfolding days_in_month
days_in_month-pos y m = ground arith

has_days :
    (a n : ℕ)
    → overflows_by (some a) (some (a + n - 1)) ≡ false
    → 1 ≤ n
    → (1 < a) × (a + n ≤ last_date)
has_days a n h k = (ground arith, ground arith)

-- Whenever the report of a month is returned, the daily report of each of its days, from the first
-- to the last, is returned too; the tasks created, the tasks completed, the net weight and the
-- income of the month are the sums of those of its days.
pub monthly-daily :
    (text_le : String → String → Bool) (env : Env) (year month : Option ℤ) (db : Db)
    (r : BusinessReport)
    → monthly text_le env year month db ≡ ok r
    → (ds : List BusinessReport) × (map
          (λ d. daily text_le env (some d) db)
          (days_from r.period_start (r.period_end + 1 - r.period_start))
        ≡ map ok ds)
      × (r.task_count ≡ total counts (λ d. d.task_count) ds)
      × (r.completed_task_count ≡ total counts (λ d. d.completed_task_count) ds)
      × (r.completed_net_weight_tons ≡ total amounts (λ d. d.completed_net_weight_tons) ds)
      × (r.income ≡ total amounts (λ d. d.income) ds)
unfolding monthly build_report
monthly-daily text_le env year month db r h =
    let (_, h1) =
      raise_if-eq-ok (if is_none year then not (is_none month) else is_none month) business_rule _ _
        h in
    let chosen = selected_month env year month in
    let (_, h2) = raise_if-eq-ok (outside 1 12 chosen.1) business_rule _ _ h1 in
    let (_, h3) = raise_if-eq-ok (outside 1 9999 chosen.0) value_error _ _ h2 in
    let a = first_of_month (pos_part chosen.0) (pos_part chosen.1) in
    let n = days_in_month (pos_part chosen.0) (pos_part chosen.1) in
    let (inside, h4) =
      raise_if-eq-ok (overflows_by (some a) (some (a + n - 1))) overflow_error _ _ h3 in
    let same : report_of text_le ReportType.monthly_ a (a + n) db ≡ r = ground arith in
    let some_days = days_in_month-pos (pos_part chosen.0) (pos_part chosen.1) in
    let (after_first, before_last) = has_days a n inside some_days in
    let (ds, returned, sums) =
      whole-days text_le db a n env ReportType.monthly_ after_first some_days before_last in
    rw (← same) (ds, returned, sums.0, sums.1, sums.2, sums.3)
