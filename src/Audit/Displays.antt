-- ===== src/Audit/Displays.antt =====
-- The dictionary of displays comes to one lookup for each entry.
use timber_ops.Prelude.{
  ◌≡◌, refl, ap, ◌∙◌, String, string_eq, true, false, nat_eq, option_eq, Option, none, List, lookup,
  has_unique_keys, arith,
}
use timber_ops.Domain.Decimal.{Money}
use timber_ops.Store.Rows.{Uuid, AuditLog, Vehicle, Customer}
use timber_ops.Store.Db.{Db}
use timber_ops.Store.Constraints.{satisfies, tasks_ok, vehicles_ok, customers_ok, billing_ok}
use timber_ops.Audit.{
  TargetKind, is_kind, Displays, for_rows, no_displays, is_wanted, task_display, billing_display,
  resolve_target_displays,
}
use timber_ops.Audit.Trail.{named, first_of, first_of-none, for_rows_other, for_rows_wanted}

-- The keys of the four tables.
pub record HasKeys (db : Db) : Type 0 where
  pub tasks : has_unique_keys db.tasks ≡ true
  pub vehicles : has_unique_keys db.vehicles ≡ true
  pub customers : has_unique_keys db.customers ≡ true
  pub billing_records : has_unique_keys db.billing_records ≡ true

pub satisfies-HasKeys : (db : Db) → satisfies db ≡ true → HasKeys db
unfolding satisfies tasks_ok vehicles_ok customers_ok billing_ok
satisfies-HasKeys db h = record {
  tasks = ground arith;
  vehicles = ground arith;
  customers = ground arith;
  billing_records = ground arith;
}

module _ (uuid_text : Uuid → String) (fee_text : Money → String) where
  -- The text of the row that an entry is about.
  abbrev pub row_display : Db → TargetKind → Uuid → Option String
  row_display db TargetKind.task id = named (task_display db) (lookup id db.tasks)
  row_display db TargetKind.vehicle id =
      named (λ (v : Vehicle). v.plate_number) (lookup id db.vehicles)
  row_display db TargetKind.customer id = named (λ (c : Customer). c.name) (lookup id db.customers)
  row_display db TargetKind.billing id =
      named (billing_display uuid_text fee_text db) (lookup id db.billing_records)

  -- The dictionary after each query.
  abbrev after_tasks : Db → List (Uuid × AuditLog) → Displays
  after_tasks db logs =
      for_rows TargetKind.task (task_display db) (is_wanted logs TargetKind.task) db.tasks
        no_displays

  abbrev after_vehicles : Db → List (Uuid × AuditLog) → Displays
  after_vehicles db logs =
      for_rows TargetKind.vehicle (λ (v : Vehicle). v.plate_number)
        (is_wanted logs TargetKind.vehicle) db.vehicles (after_tasks db logs)

  abbrev after_customers : Db → List (Uuid × AuditLog) → Displays
  after_customers db logs =
      for_rows TargetKind.customer (λ (c : Customer). c.name) (is_wanted logs TargetKind.customer)
        db.customers (after_vehicles db logs)

  module _ (db : Db) (logs : List (Uuid × AuditLog)) (k : TargetKind) (id : Uuid) where
    not_task : is_kind k TargetKind.task ≡ false → after_tasks db logs k id ≡ none
    not_task h =
        for_rows_other TargetKind.task (task_display db) (is_wanted logs TargetKind.task) k id
          db.tasks no_displays h

    not_vehicle :
        is_kind k TargetKind.vehicle ≡ false
        → after_vehicles db logs k id ≡ after_tasks db logs k id
    not_vehicle h =
        for_rows_other TargetKind.vehicle (λ v. v.plate_number) (is_wanted logs TargetKind.vehicle)
          k id db.vehicles (after_tasks db logs) h

    not_customer :
        is_kind k TargetKind.customer ≡ false
        → after_customers db logs k id ≡ after_vehicles db logs k id
    not_customer h =
        for_rows_other TargetKind.customer (λ c. c.name) (is_wanted logs TargetKind.customer) k id
          db.customers (after_vehicles db logs) h

    not_billing :
        is_kind k TargetKind.billing ≡ false
        → resolve_target_displays uuid_text fee_text db logs k id ≡ after_customers db logs k id
    not_billing h =
        for_rows_other TargetKind.billing (billing_display uuid_text fee_text db)
          (is_wanted logs TargetKind.billing) k id db.billing_records (after_customers db logs) h

  pub resolve-row_display :
      (db : Db) (logs : List (Uuid × AuditLog)) (kind : TargetKind) (id : Uuid)
      → HasKeys db
      → is_wanted logs kind id ≡ true
      → resolve_target_displays uuid_text fee_text db logs kind id ≡ row_display db kind id
  resolve-row_display db logs TargetKind.task id u w =
      not_billing db logs TargetKind.task id refl
      ∙ not_customer db logs TargetKind.task id refl
      ∙ not_vehicle db logs TargetKind.task id refl
      ∙ for_rows_wanted TargetKind.task (task_display db) (is_wanted logs TargetKind.task) id
          db.tasks no_displays u.tasks w
      ∙ first_of-none (row_display db TargetKind.task id)
  resolve-row_display db logs TargetKind.vehicle id u w =
      not_billing db logs TargetKind.vehicle id refl
      ∙ not_customer db logs TargetKind.vehicle id refl
      ∙ for_rows_wanted TargetKind.vehicle (λ v. v.plate_number) (is_wanted logs TargetKind.vehicle)
          id db.vehicles (after_tasks db logs) u.vehicles w
      ∙ ap (first_of (row_display db TargetKind.vehicle id))
          (not_task db logs TargetKind.vehicle id refl)
      ∙ first_of-none (row_display db TargetKind.vehicle id)
  resolve-row_display db logs TargetKind.customer id u w =
      not_billing db logs TargetKind.customer id refl
      ∙ for_rows_wanted TargetKind.customer (λ c. c.name) (is_wanted logs TargetKind.customer) id
          db.customers (after_vehicles db logs) u.customers w
      ∙ ap (first_of (row_display db TargetKind.customer id)) (
          not_vehicle db logs TargetKind.customer id refl
          ∙ not_task db logs TargetKind.customer id refl)
      ∙ first_of-none (row_display db TargetKind.customer id)
  resolve-row_display db logs TargetKind.billing id u w =
      for_rows_wanted TargetKind.billing (billing_display uuid_text fee_text db)
        (is_wanted logs TargetKind.billing) id db.billing_records (after_customers db logs)
        u.billing_records w
      ∙ ap (first_of (row_display db TargetKind.billing id)) (
          not_customer db logs TargetKind.billing id refl
          ∙ not_vehicle db logs TargetKind.billing id refl
          ∙ not_task db logs TargetKind.billing id refl)
      ∙ first_of-none (row_display db TargetKind.billing id)
