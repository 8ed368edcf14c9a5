-- ===== src/Reports/Dashboard/Consistency.antt =====
-- The figures of the dashboard agree with one another.
use timber_ops.Prelude.{
  ℕ, Equality, Bool-cases, inl, inr, ◌+◌, String, Bool, true, false, not, ◌||◌, ◌==◌, ◌≡◌, refl,
  sym, ap, ◌∙◌, List, [], ◌∷◌, length, where_, if◌then◌else◌, arith,
}
use timber_ops.Prelude.Totals.{counts, amounts, total, group_by, place, where-where}
use timber_ops.Domain.Enums.{WeighingStatus, weighing_status_eq}
use timber_ops.Domain.Days.{local_date, local_day_start_utc}
use timber_ops.Store.Rows.{Uuid, WeighingTask}
use timber_ops.Store.Db.{Db, Env}
use timber_ops.Reports.Figures.{is_valid, is_completed_in, count_of}
use timber_ops.Reports.Rankings.Accounts.{cargo_ranking-adds_up}
use timber_ops.Reports.Dashboard.{StatusDistributionItem, get_count, get_overview}

abbrev has_status : WeighingStatus → Uuid × WeighingTask → Bool
has_status s r = r.1.status == s

module _ {A K : Type 0} ⦃e : Equality K⦄ (key : A → K) (s : K) where
  get_count-place :
      (x : A) (gs : List (K × List A))
      → get_count s (place key x gs) ≡ (if key x == s then 1 else 0) + get_count s gs
  get_count-place x [] = elim (Bool-cases (key x == s)) [
    | inl here ↦ rw here refl
    | inr other ↦ rw other refl
  ]
  get_count-place x ((k, ys) ∷ gs) = elim (Bool-cases (k == key x)) [
    | inl here ↦
        let same : k ≡ key x = (e.same_iff k (key x)).0 here in
        elim (Bool-cases (key x == s)) [
          | inl mine ↦
              let first_ : (k == s) ≡ true = ap (λ j. j == s) same ∙ mine in
              rw (here, mine, first_) (omega arith)
          | inr other ↦
              let not_first : (k == s) ≡ false = ap (λ j. j == s) same ∙ other in
              rw (here, other, not_first) (omega arith)
        ]
    | inr later ↦ elim (Bool-cases (k == s)) [
      | inl mine ↦
          let other : (key x == s) ≡ false = elim (Bool-cases (key x == s)) [
            | inl both ↦
                let meet : k ≡ key x =
                  (e.same_iff k s).0 mine ∙ sym ((e.same_iff (key x) s).0 both) in
                absurd (ground (arith, (e.same_iff k (key x)).1 meet, later))
            | inr apart ↦ apart
          ] in
          rw (later, mine, other) (omega arith)
      | inr not_first ↦ rw (later, not_first) (get_count-place x gs)
    ]
  ]

  -- what `counts.get` finds is the number of the rows with that key
  get_count-group_by :
      (rows : List A) → get_count s (group_by key rows) ≡ length (where_ (λ r. key r == s) rows)
  unfolding group_by
  get_count-group_by [] = refl
  get_count-group_by (x ∷ rows) = elim (Bool-cases (key x == s)) [
    | inl mine ↦
        rw mine
          (get_count-place x (group_by key rows) ∙ rw mine (omega (arith, get_count-group_by rows)))
    | inr other ↦
        rw other (
          get_count-place x (group_by key rows) ∙ rw other (omega (arith, get_count-group_by rows)))
  ]

-- The number that the distribution shows for a status.
abbrev pub count_in : WeighingStatus → List StatusDistributionItem → ℕ
count_in s [] = 0
count_in s (i ∷ is) = let rest = count_in s is in if i.status == s then i.count else rest

abbrev number : WeighingStatus → List (Uuid × WeighingTask) → ℕ
number s rows = length (where_ (has_status s) rows)

length-where-cons :
    {A : Type 0} (p : A → Bool) (x : A) (xs : List A)
    → length (where_ p (x ∷ xs)) ≡ (if p x then 1 else 0) + length (where_ p xs)
length-where-cons p x xs = elim (Bool-cases (p x)) [
  | inl kept ↦ rw kept (omega arith)
  | inr dropped ↦ rw dropped (omega arith)
]

number-cons :
    (s : WeighingStatus) (r : Uuid × WeighingTask) (rows : List (Uuid × WeighingTask))
    → number s (r ∷ rows) ≡ (if r.1.status == s then 1 else 0) + number s rows
number-cons s r rows = length-where-cons (has_status s) r rows

-- a status, as a number for each status that there is
abbrev is_one : WeighingStatus → WeighingStatus → ℕ
is_one t s = if t == s then 1 else 0

one_status :
    (t : WeighingStatus)
    → is_one t WeighingStatus.wait_tare
        + is_one t WeighingStatus.tare_completed
        + is_one t WeighingStatus.wait_gross
        + is_one t WeighingStatus.gross_completed
        + is_one t WeighingStatus.completed
        + is_one t WeighingStatus.cancelled
      ≡ 1
one_status WeighingStatus.wait_tare = refl
one_status WeighingStatus.tare_completed = refl
one_status WeighingStatus.wait_gross = refl
one_status WeighingStatus.gross_completed = refl
one_status WeighingStatus.completed = refl
one_status WeighingStatus.cancelled = refl

every_status :
    (rows : List (Uuid × WeighingTask))
    → number WeighingStatus.wait_tare rows
        + number WeighingStatus.tare_completed rows
        + number WeighingStatus.wait_gross rows
        + number WeighingStatus.gross_completed rows
        + number WeighingStatus.completed rows
        + number WeighingStatus.cancelled rows
      ≡ length rows
every_status [] = refl
every_status (r ∷ rows) = omega (
  arith,
  number-cons WeighingStatus.wait_tare r rows,
  number-cons WeighingStatus.tare_completed r rows,
  number-cons WeighingStatus.wait_gross r rows,
  number-cons WeighingStatus.gross_completed r rows,
  number-cons WeighingStatus.completed r rows,
  number-cons WeighingStatus.cancelled r rows,
  one_status r.1.status,
  every_status rows,
)

abbrev is_open : Uuid × WeighingTask → Bool
is_open r = not (r.1.status == WeighingStatus.completed || r.1.status == WeighingStatus.cancelled)

open_or_closed :
    (t : WeighingStatus)
    → (if not (t == WeighingStatus.completed || t == WeighingStatus.cancelled) then 1 else 0)
        + is_one t WeighingStatus.completed
        + is_one t WeighingStatus.cancelled
      ≡ 1
open_or_closed WeighingStatus.wait_tare = refl
open_or_closed WeighingStatus.tare_completed = refl
open_or_closed WeighingStatus.wait_gross = refl
open_or_closed WeighingStatus.gross_completed = refl
open_or_closed WeighingStatus.completed = refl
open_or_closed WeighingStatus.cancelled = refl

open_and_closed :
    (rows : List (Uuid × WeighingTask))
    → length (where_ is_open rows)
        + number WeighingStatus.completed rows
        + number WeighingStatus.cancelled rows
      ≡ length rows
open_and_closed [] = refl
open_and_closed (r ∷ rows) = omega (
  arith,
  length-where-cons is_open r rows,
  number-cons WeighingStatus.completed r rows,
  number-cons WeighingStatus.cancelled r rows,
  open_or_closed r.1.status,
  open_and_closed rows,
)

-- On the dashboard, the numbers of the status distribution add up to the tasks that are neither
-- deleted nor reversed, and without those of the completed and the cancelled ones to the pending
-- tasks; the cargo ranking accounts for exactly the tasks completed today and their net weight.
pub get_overview-adds_up :
    (text_le : String → String → Bool) (env : Env) (db : Db)
    → let o = get_overview text_le env db in
      (total counts (λ i. i.count) o.status_distribution ≡ count_of (is_valid db) db)
      × (o.pending_task_count
            + count_in WeighingStatus.completed o.status_distribution
            + count_in WeighingStatus.cancelled o.status_distribution
          ≡ count_of (is_valid db) db)
      × (total counts (λ i. i.completed_task_count) o.cargo_weight_ranking
          ≡ o.today_completed_task_count)
      × (total amounts (λ i. i.total_net_weight_tons) o.cargo_weight_ranking
          ≡ o.today_completed_net_weight_tons)
unfolding get_overview
get_overview-adds_up text_le env db =
    let date = local_date env.now in
    let valid = where_ (is_valid db) db.tasks in
    let found = λ (s : WeighingStatus).
      get_count-group_by (λ (r : Uuid × WeighingTask). r.1.status) s valid in
    let cargo = cargo_ranking-adds_up text_le (
      where_ (is_completed_in (local_day_start_utc date) (local_day_start_utc (date + 1)) db)
        db.tasks) in
    (
      omega (
        arith,
        found WeighingStatus.wait_tare,
        found WeighingStatus.tare_completed,
        found WeighingStatus.wait_gross,
        found WeighingStatus.gross_completed,
        found WeighingStatus.completed,
        found WeighingStatus.cancelled,
        every_status valid,
      ),
      omega (
        arith,
        ap length (where-where (is_valid db) is_open db.tasks),
        found WeighingStatus.completed,
        found WeighingStatus.cancelled,
        open_and_closed valid,
      ),
      cargo.0,
      cargo.1,
    )
