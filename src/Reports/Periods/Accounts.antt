-- ===== src/Reports/Periods/Accounts.antt =====
-- The figures of a report agree with one another.
use timber_ops.Prelude.{
  ℕ, ◌-◌, String, Bool, ◌≡◌, refl, true, ◌&&◌, List, [], ◌∷◌, all, where_, some, arith,
}
use timber_ops.Prelude.Totals.{counts, amounts, total}
use timber_ops.Domain.Days.{local_day_start_utc, overflows_by}
use timber_ops.Domain.Errors.{ok, overflow_error, raise_if-eq-ok}
use timber_ops.Store.Db.{Db}
use timber_ops.Store.Constraints.{task_check, task_references, tasks_ok, satisfies}
use timber_ops.Reports.Figures.{is_completed_in}
use timber_ops.Reports.Rankings.Accounts.{
  has_vehicle, cargo_ranking-adds_up, vehicle_ranking-adds_up,
}
use timber_ops.Reports.Periods.{ReportType, BusinessReport, report_of, build_report}

all-where :
    {A : Type 0} (p q : A → Bool) (xs : List A) → all p xs ≡ true → all p (where_ q xs) ≡ true
all-where p q [] h = refl
all-where p q (x ∷ xs) h = ground (arith, all-where p q xs)

all-weaken :
    {A : Type 0} (p q : A → Bool) (xs : List A)
    → ((x : A) → p x ≡ true → q x ≡ true)
    → all p xs ≡ true
    → all q xs ≡ true
all-weaken p q [] f h = refl
all-weaken p q (x ∷ xs) f h = ground (arith, f x, all-weaken p q xs f)

-- Over a database that satisfies its constraints every task has its vehicle.
pub has_vehicles : (db : Db) → satisfies db ≡ true → all (has_vehicle db) db.tasks ≡ true
unfolding satisfies tasks_ok
has_vehicles db h =
    all-weaken (λ r. task_check r.1 && task_references db r.1) (has_vehicle db) db.tasks
      (λ r e. ground arith) (ground arith)

-- Over a database that satisfies its constraints, the rankings of a report, by cargo and by vehicle,
-- account for exactly its completed tasks and its completed net weight.
pub build_report-adds_up :
    (text_le : String → String → Bool) (report_type : ReportType) (start end_ : ℕ) (db : Db)
    (r : BusinessReport)
    → satisfies db ≡ true
    → build_report text_le report_type start end_ db ≡ ok r
    → (total counts (λ i. i.completed_task_count) r.cargo_ranking_ ≡ r.completed_task_count)
      × (total amounts (λ i. i.total_net_weight_tons) r.cargo_ranking_
          ≡ r.completed_net_weight_tons)
      × (total counts (λ i. i.completed_task_count) r.vehicle_ranking_ ≡ r.completed_task_count)
      × (total amounts (λ i. i.total_net_weight_tons) r.vehicle_ranking_
          ≡ r.completed_net_weight_tons)
unfolding build_report
build_report-adds_up text_le report_type start end_ db r good h =
    let (_, h1) =
      raise_if-eq-ok (overflows_by (some start) (some (end_ - 1))) overflow_error _ _ h in
    let same : report_of text_le report_type start end_ db ≡ r = ground arith in
    let rows =
      where_ (is_completed_in (local_day_start_utc start) (local_day_start_utc end_) db) db.tasks in
    let cargo = cargo_ranking-adds_up text_le rows in
    let vehicle =
      vehicle_ranking-adds_up text_le db rows
        (all-where (has_vehicle db) _ db.tasks (has_vehicles db good)) in
    rw (← same) (cargo.0, cargo.1, vehicle.0, vehicle.1)
