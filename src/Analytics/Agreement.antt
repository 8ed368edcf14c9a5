-- ===== src/Analytics/Agreement.antt =====
-- The summaries of AnalyticsService and the dashboard show the same day, although the summaries do
-- not look at `deleted_at`.
use timber_ops.Prelude.{
  ℕ, ◌+◌, ◌<◌, ◌≡◌, refl, sym, ap, ◌∙◌, String, Bool, true, false, not, ◌&&◌, ◌||◌, ◌==◌, none,
  some, Option, List, [], ◌∷◌, map, length, all, where_, arith, is_none,
}
use timber_ops.Prelude.Int.{pos, ◌+ℤ◌}
use timber_ops.Prelude.Totals.{amounts, total, where-where, zero-add_ℤ}
use timber_ops.Domain.Enums.{CargoType, cargo_type_eq, WeighingStatus, weighing_status_eq}
use timber_ops.Domain.Errors.{ok}
use timber_ops.Domain.Days.{local_date, local_day_start_utc, last_date, is_after_end, overflows_by}
use timber_ops.Store.Rows.{Uuid, Time, WeighingTask}
use timber_ops.Store.Db.{Db, Env}
use timber_ops.Reports.Figures.{is_completed_in, in_time, task_is_not_reversed}
use timber_ops.Reports.Rankings.Accounts.{net_of, sum_weights-total}
use timber_ops.Reports.Dashboard.{get_overview}
use timber_ops.System.Requests.{Request, run}
use timber_ops.System.Deletions.{is_kept, AreKept, run-AreKept}
use timber_ops.Analytics.{is_summed, is_completed_within}
use timber_ops.Analytics.Overweight.{ordered_events, overweight_record}
use timber_ops.Analytics.Summaries.{
  TodaySummary, CargoSummary, add_tasks, no_totals, sum_from, get_today_weighing_summary,
  get_cargo_weight_summary,
}
use timber_ops.Analytics.Summaries.Sums.{of_cargo, add_tasks-total, add_tasks-cargo, sum_from-total}

where-cong :
    {A : Type 0} (k p q : A → Bool) (xs : List A)
    → ((x : A) → k x ≡ true → p x ≡ q x)
    → all k xs ≡ true
    → where_ p xs ≡ where_ q xs
where-cong k p q [] e h = refl
where-cong k p q (x ∷ xs) e h = ground (arith, e x, where-cong k p q xs e)

same_times :
    (start end_ : Time) (at : Option Time)
    → is_completed_within (some start, some end_) at ≡ in_time start end_ at
same_times start end_ none = refl
same_times start end_ (some at) = refl

same_tests :
    (done free kept timed : Bool)
    → (not done || kept) ≡ true
    → (done && free && true && timed) ≡ (kept && free && done && timed)
same_tests done free kept timed h = ground arith

split_tests :
    (done free cargo timed : Bool)
    → (done && free && cargo && timed) ≡ ((done && free && true && timed) && cargo)
split_tests done free cargo timed = ground arith

-- the tests of both services for a task of the day
same_test :
    (db : Db) (start end_ : Time) (r : Uuid × WeighingTask)
    → is_kept r ≡ true
    → is_summed db none (some start, some end_) r ≡ is_completed_in start end_ db r
same_test db start end_ (id, t) h =
    ap (λ b. t.status == WeighingStatus.completed && task_is_not_reversed db id && true && b)
      (same_times start end_ t.completed_at)
    ∙ same_tests (t.status == WeighingStatus.completed) (task_is_not_reversed db id)
        (is_none t.deleted_at) (in_time start end_ t.completed_at) h

cargo_test :
    (db : Db) (c : CargoType) (bounds : Option Time × Option Time) (r : Uuid × WeighingTask)
    → is_summed db (some c) bounds r ≡ (is_summed db none bounds r && r.1.cargo_type == c)
cargo_test db c bounds (id, t) =
    split_tests (t.status == WeighingStatus.completed) (task_is_not_reversed db id)
      (t.cargo_type == c) (is_completed_within bounds t.completed_at)

all-true : {A : Type 0} (xs : List A) → all (λ _. true) xs ≡ true
all-true [] = refl
all-true (x ∷ xs) = all-true xs

-- the tasks of one cargo among those of the day
cargo_tasks :
    (db : Db) (c : CargoType) (bounds : Option Time × Option Time)
    → where_ (is_summed db (some c) bounds) db.tasks
      ≡ where_ (of_cargo c) (where_ (is_summed db none bounds) db.tasks)
cargo_tasks db c bounds =
    where-cong (λ _. true) (is_summed db (some c) bounds)
      (λ r. is_summed db none bounds r && of_cargo c r) db.tasks (λ r _. cargo_test db c bounds r)
      (all-true db.tasks)
    ∙ where-where (is_summed db none bounds) (of_cargo c) db.tasks

abbrev bounds_of : ℕ → Option Time × Option Time
bounds_of date = (some (local_day_start_utc date), some (local_day_start_utc (date + 1)))

abbrev tasks_of : ℕ → Db → List (Uuid × WeighingTask)
tasks_of date db = where_ (is_summed db none (bounds_of date)) db.tasks

-- `get_cargo_weight_summary` of a day, and what `get_today_weighing_summary` shows for the cargo
cargo_agrees :
    (c : CargoType) (date : ℕ) (db : Db)
    → overflows_by (some date) (some date) ≡ false
    → (s : CargoSummary) × (get_cargo_weight_summary c (some date) (some date) db ≡ ok s)
      × (s.total_net_weight_tons ≡ (add_tasks (tasks_of date db) (pos 0) no_totals).1 c)
unfolding get_cargo_weight_summary
cargo_agrees c date db h =
    let rows = where_ (is_summed db (some c) (bounds_of date)) db.tasks in
    (
      record {
        cargo_type = c;
        start_date = some date;
        end_date = some date;
        completed_tasks_ = length rows;
        total_net_weight_tons = sum_from (pos 0) rows;
      },
      rw h (ground arith),
      sum_from-total rows (pos 0)
          ∙ ap (λ xs. pos 0 +ℤ total amounts net_of xs) (cargo_tasks db c (bounds_of date))
          ∙ sym (add_tasks-cargo c (tasks_of date db) (pos 0) no_totals),
    )

not_over :
    (now : Time)
    → local_date now < last_date
    → overflows_by (some (local_date now)) (some (local_date now)) ≡ false
not_over now h = ground arith

not_after : (date : ℕ) → is_after_end (some date) (some date) ≡ false
not_after date = ground arith

-- Whatever the requests, if at first no completed task was deleted, and if today is not the last
-- date: the summary of today that the AI tools show agrees with the dashboard, on the date, on the
-- number of the tasks completed today and on their net weight; and its weights of coal, ore and
-- timber are those that the cargo summaries of the day give.
pub get_today_weighing_summary-get_overview :
    (text_le : String → String → Bool) (env : Env) (rs : List (Env × Request)) (db : Db)
    → AreKept db
    → local_date env.now < last_date
    → let o = get_overview text_le env (run rs db) in
      let day = some (local_date env.now) in
      (s : TodaySummary) × (get_today_weighing_summary env (run rs db) ≡ ok s)
      × (s.date ≡ o.business_date)
      × (s.completed_tasks_ ≡ o.today_completed_task_count)
      × (s.total_net_weight_tons ≡ o.today_completed_net_weight_tons)
      × ((c : CargoSummary) × (get_cargo_weight_summary CargoType.coal day day (run rs db) ≡ ok c)
          × (c.total_net_weight_tons ≡ s.coal_weight_tons))
      × ((c : CargoSummary) × (get_cargo_weight_summary CargoType.ore day day (run rs db) ≡ ok c)
          × (c.total_net_weight_tons ≡ s.ore_weight_tons))
      × ((c : CargoSummary) × (get_cargo_weight_summary CargoType.timber day day (run rs db) ≡ ok c)
          × (c.total_net_weight_tons ≡ s.timber_weight_tons))
unfolding get_today_weighing_summary get_overview
get_today_weighing_summary-get_overview text_le env rs db k h =
    let date = local_date env.now in
    let now_db = run rs db in
    let over = not_over env.now h in
    let rows = tasks_of date now_db in
    let totals = add_tasks rows (pos 0) no_totals in
    let same : rows
        ≡ where_
            (is_completed_in (local_day_start_utc date) (local_day_start_utc (date + 1)) now_db)
            now_db.tasks =
      where-cong is_kept (is_summed now_db none (bounds_of date))
        (is_completed_in (local_day_start_utc date) (local_day_start_utc (date + 1)) now_db)
        now_db.tasks (same_test now_db (local_day_start_utc date) (local_day_start_utc (date + 1)))
        (run-AreKept rs db k) in
    (
      record {
        date = date;
        completed_tasks_ = length rows;
        total_net_weight_tons = totals.0;
        coal_weight_tons = totals.1 CargoType.coal;
        ore_weight_tons = totals.1 CargoType.ore;
        timber_weight_tons = totals.1 CargoType.timber;
        overweight_events = length (map overweight_record (ordered_events now_db (bounds_of date)));
      },
      rw (not_after date, over) refl,
      refl,
      ap length same,
      add_tasks-total rows (pos 0) no_totals
          ∙ zero-add_ℤ (total amounts net_of rows)
          ∙ ap (total amounts net_of) same
          ∙ sym (
              sum_weights-total (
                where_
                  (is_completed_in (local_day_start_utc date) (local_day_start_utc (date + 1))
                    now_db)
                  now_db.tasks)),
      cargo_agrees CargoType.coal date now_db over,
      cargo_agrees CargoType.ore date now_db over,
      cargo_agrees CargoType.timber date now_db over,
    )
