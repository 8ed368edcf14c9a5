-- ===== src/Analytics.antt =====
-- AnalyticsService of backend/app/services/analytics_service.py: its bounds by date, and the
-- completed tasks that its summaries add up.
pub mod Overweight
pub mod Summaries
pub mod Lookups
pub mod Agreement
use timber_ops.Prelude.{
  ◌+◌, Bool, true, not, ◌&&◌, ◌==◌, leb, ltb, is_none, Option, none, some, ℕ, List, where_,
}
use timber_ops.Domain.Enums.{CargoType, cargo_type_eq, WeighingStatus, weighing_status_eq}
use timber_ops.Domain.Errors.{Result, ok, value_error, overflow_error, ◌>>=◌, ◌>>◌, raise_if}
use timber_ops.Domain.Days.{is_after_end, overflows_by, local_day_start_utc}
use timber_ops.Store.Rows.{Uuid, Time, WeighingTask}
use timber_ops.Store.Db.{Db}
use timber_ops.Reports.Figures.{task_is_not_reversed}

abbrev pub bound_of : (ℕ → Time) → Option ℕ → Option Time
bound_of f none = none
bound_of f (some date) = some (f date)

-- `_date_bounds`
unfoldable pub date_bounds : Option ℕ → Option ℕ → Result (Option Time × Option Time)
date_bounds start_date end_date = do
  raise_if (is_after_end start_date end_date) value_error
  raise_if (overflows_by start_date end_date) overflow_error
  ok (
    bound_of local_day_start_utc start_date,
    bound_of (λ date. local_day_start_utc (date + 1)) end_date,
  )

-- `_filter_datetime`, of one row
abbrev pub passes_datetime : Option Time × Option Time → Time → Bool
passes_datetime (none, none) at = true
passes_datetime (some start_at, none) at = leb start_at at
passes_datetime (none, some end_before) at = ltb at end_before
passes_datetime (some start_at, some end_before) at = leb start_at at && ltb at end_before

abbrev pub is_completed_within : Option Time × Option Time → Option Time → Bool
is_completed_within bounds none = Bool.false
is_completed_within bounds (some at) = passes_datetime bounds at

abbrev pub is_cargo : Option CargoType → CargoType → Bool
is_cargo none c = true
is_cargo (some cargo_type) c = c == cargo_type

-- The WHERE of `_completed_tasks`, which does not look at `deleted_at`.
abbrev pub is_summed :
    Db → Option CargoType → Option Time × Option Time → Uuid × WeighingTask → Bool
is_summed db cargo_type bounds (id, t) =
    t.status == WeighingStatus.completed
    && task_is_not_reversed db id
    && is_cargo cargo_type t.cargo_type
    && is_completed_within bounds t.completed_at

-- `_completed_tasks`
unfoldable pub completed_tasks :
    Option ℕ → Option ℕ → Option CargoType → Db → Result (List (Uuid × WeighingTask))
unfolding date_bounds
completed_tasks start_date end_date cargo_type db = do
  bounds ← date_bounds start_date end_date
  ok (where_ (is_summed db cargo_type bounds) db.tasks)
