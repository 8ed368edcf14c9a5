-- ===== src/Analytics/Overweight/Listing.antt =====
-- What `get_overweight_records` returns.
use timber_ops.Prelude.{ℕ, Bool, ◌&&◌, ◌+◌, nat_eq, option_eq, Option, List, [], ◌∷◌, lookup}
use timber_ops.Store.Rows.{Uuid, Time, WeighingRecord}
use timber_ops.Store.Db.{Db}
use timber_ops.Domain.Days.{local_date, local_day_start_utc}
use timber_ops.Domain.Days.Intervals.{is_within}
use timber_ops.Analytics.{bound_of}
use timber_ops.Analytics.Overweight.{task_of, Event, with_task, joined_to}
use timber_ops.Analytics.Overweight.FirstReadings.{is_first_above}

-- The joins with the tasks and the vehicles.
abbrev pub joined : Db → List (Uuid × WeighingRecord) → List Event
joined db [] = []
joined db (row ∷ rows) =
    joined_to (with_task db row.1 (lookup (task_of row) db.tasks)) (joined db rows)

abbrev pub is_listed : Option ℕ → Option ℕ → Db → Uuid × WeighingRecord → Bool
is_listed start end_ db row =
    is_first_above db row && is_within start end_ (local_date row.1.recorded_at)

abbrev bounds_of : Option ℕ → Option ℕ → Option Time × Option Time
bounds_of start end_ =
    (bound_of local_day_start_utc start, bound_of (λ date. local_day_start_utc (date + 1)) end_)
