-- ===== src/Analytics/Overweight/FirstReadings.antt =====
-- The readings that `get_overweight_records` lists, said without the subquery.
use timber_ops.Prelude.{
  ℕ, ◌≡◌, refl, sym, ◌∙◌, inl, inr, Bool, Bool-cases, Option-cases, true, false, not, ◌&&◌, ◌||◌,
  ◌==◌, nat_eq, nat_beq_iff, subst, option_eq, leb, none, some, all, lookup, distinct, arith,
}
use timber_ops.Prelude.Groups.{IsIn, least-some, least-none, all_at, any-true}
use timber_ops.Store.Rows.{Uuid, WeighingRecord}
use timber_ops.Store.Db.{Db}
use timber_ops.Store.Constraints.{same_place}
use timber_ops.Analytics.Overweight.{is_event, is_first, first_event, sequence_no, task_of}

-- A reading above the snapshot of a task that is not reversed, with none such before it.
abbrev pub is_first_above : Db → Uuid × WeighingRecord → Bool
is_first_above db row =
    is_event db row
    && all
        (λ x.
          not (is_event db x)
          || (not (task_of x == task_of row) || leb (sequence_no row) (sequence_no x)))
        db.records

abbrev pub at_place : Uuid → ℕ → Uuid × WeighingRecord → Bool
at_place k n x = task_of x == k && sequence_no x == n

pub meets :
    (k : Uuid) (n : ℕ) (x y : Uuid × WeighingRecord)
    → at_place k n x ≡ true
    → at_place k n y ≡ true
    → same_place x y ≡ true
meets k n x y h i = ground arith

pub both : (a b : Bool) → (a && b) ≡ true → (a ≡ true) × (b ≡ true)
both a b h = (ground arith, ground arith)

implied : (a b : Bool) → (not a || b) ≡ true → a ≡ true → b ≡ true
implied a b h i = ground arith

refused : (a b : Bool) → (not a || (not b || false)) ≡ true → b ≡ true → a ≡ false
refused a b h i = ground arith

implied_twice : (a b c : Bool) → (not a || (not b || c)) ≡ true → a ≡ true → b ≡ true → c ≡ true
implied_twice a b c h i j = ground arith

module _ (db : Db) (u : distinct same_place db.records ≡ true) (row : Uuid × WeighingRecord)
    (m : IsIn row db.records) where
  none_first :
      lookup (task_of row) (first_event db) ≡ none → is_first db row ≡ is_first_above db row
  unfolding first_event
  none_first h =
      let no_event = least-none task_of sequence_no (is_event db) (task_of row) db.records h in
      let not_this =
        m (λ x. not (is_event db x) || (not (task_of x == task_of row) || false)) no_event in
      let not_event : is_event db row ≡ false =
        refused (is_event db row) (task_of row == task_of row) not_this (ground arith) in
      rw (h, not_event) refl

  abbrev none_before : ℕ → Uuid × WeighingRecord → Bool
  none_before n x = not (is_event db x) || (not (task_of x == task_of row) || leb n (sequence_no x))

  some_first :
      (n : ℕ)
      → lookup (task_of row) (first_event db) ≡ some n
      → is_first db row ≡ is_first_above db row
  unfolding first_event
  some_first n h =
      let (attained, below) =
        least-some task_of sequence_no (is_event db) (task_of row) n db.records h in
      let events_at =
        all_at same_place (at_place (task_of row) n) (meets (task_of row) n) (is_event db)
          db.records u attained in
      let here : (not (at_place (task_of row) n row) || is_event db row) ≡ true =
        m (λ x. not (at_place (task_of row) n x) || is_event db x) events_at in
      let least_here = m (λ x. none_before n x) below in
      let found : is_first db row ≡ (n == sequence_no row) = rw h refl in
      elim (Bool-cases (n == sequence_no row)) [
        | inl at_least ↦
            let number : n ≡ sequence_no row = (nat_beq_iff n (sequence_no row)).0 at_least in
            let event : is_event db row ≡ true =
              implied (at_place (task_of row) n row) (is_event db row) here
                (ground (arith, number)) in
            let before = subst (λ i. all (none_before i) db.records ≡ true) number below in
            found ∙ at_least ∙ sym (rw (event, before) refl)
        | inr later ↦ elim (Bool-cases (is_first_above db row)) [
          | inr unlisted ↦ found ∙ later ∙ sym unlisted
          | inl listed ↦
              let (event, before) = both (is_event db row) _ listed in
              let at_most : leb n (sequence_no row) ≡ true =
                implied_twice (is_event db row) _ (leb n (sequence_no row)) least_here event
                  (ground arith) in
              let (x, there, found_x) =
                any-true (λ x. is_event db x && at_place (task_of row) n x) db.records attained in
              let (event_x, at_x) = both (is_event db x) _ found_x in
              let least_x : leb (sequence_no row) (sequence_no x) ≡ true =
                implied_twice (is_event db x) (task_of x == task_of row) _
                  (there (none_before (sequence_no row)) before) event_x (ground (arith, at_x)) in
              absurd (ground (arith, at_most, least_x, at_x, later))
        ]
      ]

  pub first_above : is_first db row ≡ is_first_above db row
  first_above = elim (Option-cases (lookup (task_of row) (first_event db))) [
    | inl missing ↦ none_first missing
    | inr (n, found) ↦ some_first n found
  ]
