-- ===== src/Reports/Periods/Days.antt =====
-- The report of a period adds up the reports of its days.
use timber_ops.Prelude.{
  ℕ, zero, suc, not, ◌==◌, lookup, ◌+◌, ◌≤◌, Bool, ◌≡◌, refl, ap, ◌∙◌, false, ◌&&◌, ◌||◌, List, [],
  ◌∷◌, where_, Option, some, none, arith,
}
use timber_ops.Prelude.Totals.{Addition, total, total-where_split}
use timber_ops.Domain.Enums.{PaymentStatus, payment_status_eq}
use timber_ops.Store.Rows.{Uuid, Time, WeighingTask, BillingRecord}
use timber_ops.Store.Db.{Db}
use timber_ops.Domain.Days.{local_day_start_utc}
use timber_ops.Reports.Figures.{
  in_time, is_created_in, is_completed_in, is_completed_task, is_income_in,
}

-- A date and the days after it.
abbrev pub days_from : ℕ → ℕ → List ℕ
days_from date zero = []
days_from date (suc n) = date ∷ days_from (date + 1) n

-- A test by an interval of dates, which can be cut at a date in between.
pub record IsPeriodic {A : Type 0} (test : ℕ → ℕ → A → Bool) : Type 0 where
  pub cut : (a b c : ℕ) (x : A) → a ≤ b → b ≤ c → test a c x ≡ (test a b x || test b c x)
  pub apart : (a b c : ℕ) (x : A) → (test a b x && test b c x) ≡ false
  pub nowhere : (a : ℕ) (x : A) → test a a x ≡ false

module _ {A M : Type 0} (s : Addition M) (w : A → M) (test : ℕ → ℕ → A → Bool)
    (periodic : IsPeriodic test) (xs : List A) where
  abbrev pub figure : ℕ → ℕ → M
  figure a b = total s w (where_ (test a b) xs)

  where-none :
      (p : A → Bool) (ys : List A) → ((x : A) → p x ≡ false) → total s w (where_ p ys) ≡ s.none_
  where-none p [] h = refl
  where-none p (y ∷ ys) h = rw (h y) (where-none p ys h)

  pub figure-days :
      (a n e : ℕ) → e ≡ a + n → figure a e ≡ total s (λ d. figure d (d + 1)) (days_from a n)
  figure-days a zero e h =
      let same : e ≡ a = omega arith in
      rw same (where-none (test a a) xs (λ x. periodic.nowhere a x))
  figure-days a (suc n) e h =
      total-where_split s w (test a e) (test a (a + 1)) (test (a + 1) e) xs
        (λ x. periodic.cut a (a + 1) e x (omega arith) (omega arith))
        (λ x. periodic.apart a (a + 1) e x)
      ∙ ap (s.plus (figure a (a + 1))) (figure-days (a + 1) n e (omega arith))

in_time_cut :
    (a b c : ℕ) (at : Option Time)
    → a ≤ b
    → b ≤ c
    → in_time (local_day_start_utc a) (local_day_start_utc c) at ≡ (
        in_time (local_day_start_utc a) (local_day_start_utc b) at
        || in_time (local_day_start_utc b) (local_day_start_utc c) at)
in_time_cut a b c none h k = refl
in_time_cut a b c (some at) h k = ground arith

in_time_apart :
    (a b c : ℕ) (at : Option Time)
    → (in_time (local_day_start_utc a) (local_day_start_utc b) at
        && in_time (local_day_start_utc b) (local_day_start_utc c) at)
      ≡ false
in_time_apart a b c none = refl
in_time_apart a b c (some at) = ground arith

in_time_nowhere :
    (a : ℕ) (at : Option Time) → in_time (local_day_start_utc a) (local_day_start_utc a) at ≡ false
in_time_nowhere a none = refl
in_time_nowhere a (some at) = ground arith

module _ (db : Db) where
  abbrev pub created_test : ℕ → ℕ → Uuid × WeighingTask → Bool
  created_test a b = is_created_in (local_day_start_utc a) (local_day_start_utc b) db

  abbrev pub completed_test : ℕ → ℕ → Uuid × WeighingTask → Bool
  completed_test a b = is_completed_in (local_day_start_utc a) (local_day_start_utc b) db

  abbrev pub income_test : ℕ → ℕ → Uuid × BillingRecord → Bool
  income_test a b = is_income_in (local_day_start_utc a) (local_day_start_utc b) db

  pub created-IsPeriodic : IsPeriodic created_test
  created-IsPeriodic = record {
    cut = λ a b c x h k. ground (arith, in_time_cut a b c (some x.1.created_at) h k);
    apart = λ a b c x. ground (arith, in_time_apart a b c (some x.1.created_at));
    nowhere = λ a x. ground (arith, in_time_nowhere a (some x.1.created_at));
  }

  pub completed-IsPeriodic : IsPeriodic completed_test
  completed-IsPeriodic = record {
    cut = λ a b c x h k. ground (arith, in_time_cut a b c x.1.completed_at h k);
    apart = λ a b c x. ground (arith, in_time_apart a b c x.1.completed_at);
    nowhere = λ a x. ground (arith, in_time_nowhere a x.1.completed_at);
  }

  abbrev joined_test : Uuid → Option WeighingTask → Bool → ℕ → ℕ → Bool
  joined_test id o due a b =
      is_completed_task (local_day_start_utc a) (local_day_start_utc b) db id o && due

  joined_cut :
      (id : Uuid) (o : Option WeighingTask) (due : Bool) (a b c : ℕ)
      → a ≤ b
      → b ≤ c
      → joined_test id o due a c ≡ (joined_test id o due a b || joined_test id o due b c)
  joined_cut id none due a b c h k = refl
  joined_cut id (some t) due a b c h k = ground (arith, in_time_cut a b c t.completed_at h k)

  joined_apart :
      (id : Uuid) (o : Option WeighingTask) (due : Bool) (a b c : ℕ)
      → (joined_test id o due a b && joined_test id o due b c) ≡ false
  joined_apart id none due a b c = refl
  joined_apart id (some t) due a b c = ground (arith, in_time_apart a b c t.completed_at)

  joined_nowhere :
      (id : Uuid) (o : Option WeighingTask) (due : Bool) (a : ℕ) → joined_test id o due a a ≡ false
  joined_nowhere id none due a = refl
  joined_nowhere id (some t) due a = ground (arith, in_time_nowhere a t.completed_at)

  abbrev due_ : BillingRecord → Bool
  due_ b = not (b.payment_status == PaymentStatus.waived)

  pub income-IsPeriodic : IsPeriodic income_test
  income-IsPeriodic = record {
    cut = λ a b c x h k.
        joined_cut x.1.weighing_task_id (lookup x.1.weighing_task_id db.tasks) (due_ x.1) a b c h k;
    apart = λ a b c x.
        joined_apart x.1.weighing_task_id (lookup x.1.weighing_task_id db.tasks) (due_ x.1) a b c;
    nowhere = λ a x.
        joined_nowhere x.1.weighing_task_id (lookup x.1.weighing_task_id db.tasks) (due_ x.1) a;
  }
