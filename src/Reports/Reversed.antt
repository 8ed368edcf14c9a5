-- ===== src/Reports/Reversed.antt =====
-- A reversal takes its task out of the figures.
use timber_ops.Prelude.{
  ℕ, ◌+◌, ◌-◌, String, Bool, true, false, not, ◌&&◌, ◌==◌, nat_eq, nat_beq_iff, ◌≡◌, refl, sym, ap,
  ◌∙◌, subst, some, first, ◌++◌, none, [], ◌∷◌, length, where_, any, Table, lookup, has_unique_keys,
  Bool-cases, inl, inr, if◌then◌else◌, arith,
}
use timber_ops.Prelude.Int.{ℤ, pos, ◌+ℤ◌, int_laws}
use timber_ops.Prelude.Totals.{
  Addition, counts, amounts, total, total-where_split, length-total, where-where,
}
use timber_ops.Store.Uniqueness.{any-append}
use timber_ops.Store.Rows.{Uuid, Time, WeighingTask, WeighingReversal}
use timber_ops.Store.Db.{Db, Env}
use timber_ops.Store.Constraints.{tasks_ok, satisfies}
use timber_ops.Billing.Payments.{reversal_of}
use timber_ops.Reversal.{WeighingReversalCreate, new_reversal, reverse}
use timber_ops.Billing.Fees.{billing_of}
use timber_ops.Reversal.Effects.{Outcome, reverse-eq-ok}
use timber_ops.Reports.Figures.{
  task_is_not_reversed, is_completed_in, in_time, sum_weights, decimal_or,
}
use timber_ops.Reports.Rankings.Accounts.{net_of, sum_weights-total}
use timber_ops.Domain.Errors.{ok, overflow_error, raise_if-eq-ok}
use timber_ops.Domain.Days.{local_date, local_day_start_utc, overflows_by}
use timber_ops.Reports.Periods.{BusinessReport, ReportType, report_of, build_report, daily}
use timber_ops.Domain.Enums.{WeighingStatus, weighing_status_eq}
use timber_ops.Weighing.Effects.Active.{IsActive}

module _ {V : Type 0} (k : ℕ) where
  abbrev keyed : ℕ × V → Bool
  keyed x = x.0 == k

  no_key : (t : Table V) → lookup k t ≡ none → where_ keyed t ≡ []
  no_key [] h = refl
  no_key (x ∷ t) h = ground (arith, no_key t)

  one_key :
      (v : V) (t : Table V)
      → has_unique_keys t ≡ true
      → lookup k t ≡ some v
      → where_ keyed t ≡ (k, v) ∷ []
  one_key v [] u h = absurd cc
  one_key v (x ∷ t) u h = elim (Bool-cases (x.0 == k)) [
    | inl e ↦
        let key : x.0 ≡ k = (nat_beq_iff x.0 k).0 e in
        let gone : lookup k t ≡ none = subst (λ j. lookup j t ≡ none) key (ground arith) in
        let here : x.1 ≡ v = ground arith in rw (e, no_key t gone) (ground (arith, key, here))
    | inr ne ↦ rw ne (one_key v t (ground arith) (ground arith))
  ]

module _ {M : Type 0} (s : Addition M) (w : Uuid × WeighingTask → M) (id : Uuid) (t : WeighingTask)
    (p q : Uuid × WeighingTask → Bool) (tasks : Table WeighingTask) where
  -- the figures of two tests that differ in one task
  without :
      has_unique_keys tasks ≡ true
      → lookup id tasks ≡ some t
      → ((x : Uuid × WeighingTask) → q x ≡ (p x && not (x.0 == id)))
      → total s w (where_ p tasks)
        ≡ s.plus (total s w (if p (id, t) then (id, t) ∷ [] else [])) (total s w (where_ q tasks))
  without u h same =
      total-where_split s w p (λ x. keyed id x && p x) q tasks (λ x. ground (arith, same x))
        (λ x. ground (arith, same x))
      ∙ ap (λ rows. s.plus (total s w rows) (total s w (where_ q tasks)))
          (where-where (keyed id) p tasks ∙ ap (where_ p) (one_key id t tasks u h))

not_reversed :
    (rows : Table WeighingReversal) (id : Uuid)
    → (reversal : Uuid × WeighingReversal → Bool) → first reversal rows ≡ none
    → any reversal rows ≡ false
not_reversed [] id p h = refl
not_reversed (x ∷ rows) id p h = ground (arith, not_reversed rows id p)

-- What a new reversal changes in the database.
module _ (env : Env) (id : Uuid) (input : WeighingReversalCreate) (op : Uuid) (db : Db)
    (r : Uuid × WeighingReversal) (db' : Db) where
  record IsReversal : Type 0 where
    pub task : WeighingTask
    pub found : lookup id db.tasks ≡ some task
    pub there : task.deleted_at ≡ none
    pub completed_ : task.status ≡ WeighingStatus.completed
    pub row : Uuid × WeighingReversal
    pub of : row.1.original_task_id ≡ id
    pub reversals_ : db'.reversals ≡ db.reversals ++ row ∷ []
    pub tasks_ : db'.tasks ≡ db.tasks

  reverse-IsReversal :
      reverse env id input op (λ d. d) db ≡ ok (r, db') → reversal_of id db ≡ none → IsReversal
  reverse-IsReversal h free =
      let (task, active, done, out) = reverse-eq-ok env id input op (λ d. d) db r db' h in
      by_outcome task active done out
    where
      by_outcome :
          (task : WeighingTask)
          → IsActive id db task
          → task.status ≡ WeighingStatus.completed
          → Outcome env id input op (λ d. d) db r db' task
          → IsReversal
      by_outcome task active done (Outcome.existing e _) = absurd (cc)
      by_outcome task active done (Outcome.recovered _ _ e _) = absurd (cc)
      by_outcome task active done (Outcome.created _ _ _ written _) = record {
        task = task;
        found = active.found;
        there = active.kept;
        completed_ = done;
        row = (env.uuid 0, new_reversal env id input op (billing_of id db));
        of = refl;
        reversals_ = ap (λ d. d.reversals) written;
        tasks_ = ap (λ d. d.tasks) written;
      }

  module _ (v : IsReversal) (a b : Time) where
    -- a task is reversed now if it was, or is this one
    now_reversed :
        (k : Uuid) → task_is_not_reversed db' k ≡ (task_is_not_reversed db k && not (k == id))
    unfolding task_is_not_reversed
    now_reversed k =
        ap (λ rows. not (any (λ r. r.1.original_task_id == k) rows)) v.reversals_
        ∙ ap not (any-append (λ r. r.1.original_task_id == k) db.reversals v.row)
        ∙ ground (arith, v.of)

    gone :
        (x : Uuid × WeighingTask)
        → is_completed_in a b db' x ≡ (is_completed_in a b db x && not (x.0 == id))
    gone x = ground (arith, now_reversed x.0)

    figures :
        {M : Type 0} (s : Addition M) (w : Uuid × WeighingTask → M)
        → has_unique_keys db.tasks ≡ true
        → is_completed_in a b db (id, v.task) ≡ true
        → total s w (where_ (is_completed_in a b db) db.tasks)
          ≡ s.plus
              (s.plus (w (id, v.task)) s.none_)
              (total s w (where_ (is_completed_in a b db') db'.tasks))
    figures s w u h =
        without s w id v.task (is_completed_in a b db) (is_completed_in a b db') db.tasks u v.found
          gone
        ∙ rw (h, v.tasks_) refl

unique_tasks : (db : Db) → satisfies db ≡ true → has_unique_keys db.tasks ≡ true
unfolding satisfies tasks_ok
unique_tasks db h = ground arith

daily-eq-ok :
    (text_le : String → String → Bool) (env : Env) (d : ℕ) (db : Db) (r : BusinessReport)
    → daily text_le env (some d) db ≡ ok r
    → r ≡ report_of text_le ReportType.daily_ d (d + 1) db
unfolding daily build_report
daily-eq-ok text_le env d db r h =
    let (_, h1) = raise_if-eq-ok (overflows_by (some d) (some (d + 1 - 1))) overflow_error _ _ h in
    ground arith

in_its_day :
    (at : Time)
    → in_time
        (local_day_start_utc (local_date at))
        (local_day_start_utc (local_date at + 1))
        (some at)
      ≡ true
in_its_day at = ground arith

was_completed :
    (db : Db) (id : Uuid) (t : WeighingTask) (at : Time)
    → reversal_of id db ≡ none
    → t.deleted_at ≡ none
    → t.status ≡ WeighingStatus.completed
    → t.completed_at ≡ some at
    → is_completed_in
        (local_day_start_utc (local_date at))
        (local_day_start_utc (local_date at + 1))
        db
        (id, t)
      ≡ true
unfolding task_is_not_reversed
was_completed db id t at free there done when =
    let clean = not_reversed db.reversals id (λ r. r.1.original_task_id == id) free in
    rw (there, clean, done, when) (in_its_day at)

last_first : (n m : ℤ) → (n +ℤ pos 0) +ℤ m ≡ m +ℤ n
last_first n m = omega int_laws

-- When `reverse` writes a reversal of a task, the daily report of the day on which the task was
-- completed, whenever it is made, has one completed task less than before, and the net weight of
-- the task less; the database satisfied its constraints.
pub reverse-daily :
    (text_le : String → String → Bool) (env env' : Env) (id : Uuid) (input : WeighingReversalCreate)
    (op : Uuid) (db db' : Db) (r : Uuid × WeighingReversal) (t : WeighingTask) (at : Time)
    (before after : BusinessReport)
    → satisfies db ≡ true
    → reversal_of id db ≡ none
    → lookup id db.tasks ≡ some t
    → t.completed_at ≡ some at
    → reverse env id input op (λ d. d) db ≡ ok (r, db')
    → daily text_le env' (some (local_date at)) db ≡ ok before
    → daily text_le env' (some (local_date at)) db' ≡ ok after
    → (before.completed_task_count ≡ after.completed_task_count + 1)
      × (before.completed_net_weight_tons
          ≡ after.completed_net_weight_tons +ℤ decimal_or t.net_weight_tons)
reverse-daily text_le env env' id input op db db' r t at before after good free found when h b a =
    let v = reverse-IsReversal env id input op db r db' h free in
    let same : v.task ≡ t = cc (v.found, found) in
    let s = local_day_start_utc (local_date at) in
    let e = local_day_start_utc (local_date at + 1) in
    let was =
      was_completed db id v.task at free v.there v.completed_
        (ap (λ x. x.completed_at) same ∙ when) in
    let rows = where_ (is_completed_in s e db) db.tasks in
    let rows' = where_ (is_completed_in s e db') db'.tasks in
    let unique = unique_tasks db good in
    let fewer : length rows ≡ length rows' + 1 = omega (
      arith,
      length-total rows,
      length-total rows',
      figures env id input op db r db' v s e counts (λ _. 1) unique was,
    ) in
    let lighter : decimal_or (sum_weights rows)
        ≡ decimal_or (sum_weights rows') +ℤ decimal_or t.net_weight_tons =
      sum_weights-total rows
      ∙ figures env id input op db r db' v s e amounts net_of unique was
      ∙ last_first (net_of (id, v.task)) (total amounts net_of rows')
      ∙ ap (λ m. m +ℤ net_of (id, v.task)) (sym (sum_weights-total rows'))
      ∙ ap (λ (x : WeighingTask). decimal_or (sum_weights rows') +ℤ decimal_or x.net_weight_tons)
          same in
    let r_before = daily-eq-ok text_le env' (local_date at) db before b in
    let r_after = daily-eq-ok text_le env' (local_date at) db' after a in
    rw (r_before, r_after) (fewer, lighter)
