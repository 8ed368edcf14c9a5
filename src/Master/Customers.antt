-- ===== src/Master/Customers.antt =====
-- backend/app/services/customer_service.py, with the commands of backend/app/schemas/customer.py.
use timber_ops.Prelude.{
  ℕ, String, Bool, false, not, ◌&&◌, ◌||◌, Option, none, some, List, [], ◌∷◌, ◌==◌, nat_eq,
  string_eq, option_eq, if◌then◌else◌, is_none, ltb, leb, length, where_, lookup, insert, update,
}
use timber_ops.Prelude.Sorting.{order_by}
use timber_ops.Domain.Errors.{
  Result, ok, not_found, customer_has_history, ◌>>=◌, ◌>>◌, raise_if, or_raise,
}
use timber_ops.Store.Rows.{Uuid, Customer, WeighingTask, JsonValue}
use timber_ops.Store.Db.{Db, Env}
use timber_ops.Store.Session.{flush}
use timber_ops.Weighing.Inputs.{DeleteEntityInput}
use timber_ops.Weighing.Tasks.{add_audit}
use timber_ops.Master.Vehicles.{patched}

pub record CustomerCreate : Type 0 where
  pub name : String
  pub contact_name : Option String
  pub phone : Option String
  pub remark : Option String

-- A field that the client did not set is `none`. The schema refuses a name of null.
pub record CustomerUpdate : Type 0 where
  pub name : Option String
  pub contact_name : Option (Option String)
  pub phone : Option (Option String)
  pub remark : Option (Option String)

abbrev pub new_customer : Env → CustomerCreate → Customer
new_customer env input = record {
  name = input.name;
  contact_name = input.contact_name;
  phone = input.phone;
  remark = input.remark;
  deleted_at = none;
  created_at = env.now;
  updated_at = env.now;
}

abbrev pub customer_inserted : Env → CustomerCreate → Db → Db
customer_inserted env input db = record db {
  customers = insert (env.uuid 0) (new_customer env input) db.customers;
}

unfoldable pub create_customer : Env → CustomerCreate → Db → Result ((Uuid × Customer) × Db)
create_customer env input db = do
  db' ← flush (customer_inserted env input db)
  ok ((env.uuid 0, new_customer env input), db')

unfoldable pub get_customer : Uuid → Db → Result Customer
get_customer customer_id db = do
  customer ← or_raise (lookup customer_id db.customers) not_found
  raise_if (not (is_none customer.deleted_at)) not_found
  ok customer

-- `ORDER BY created_at, id`
abbrev pub customer_le : Uuid × Customer → Uuid × Customer → Bool
customer_le (i, a) (j, b) =
    ltb a.created_at b.created_at || (a.created_at == b.created_at && leb i j)

unfoldable pub list_customers : Db → List (Uuid × Customer)
list_customers db = order_by customer_le (where_ (λ r. is_none r.1.deleted_at) db.customers)

abbrev pub with_changes : CustomerUpdate → Customer → Customer
with_changes input c = record c {
  name = patched input.name c.name;
  contact_name = patched input.contact_name c.contact_name;
  phone = patched input.phone c.phone;
  remark = patched input.remark c.remark;
}

-- Does an update leave every column as it is? Then no UPDATE is sent.
abbrev pub same_customer : Customer → Customer → Bool
same_customer a b =
    a.name == b.name
    && a.contact_name == b.contact_name
    && a.phone == b.phone
    && a.remark == b.remark

abbrev pub save_customer : Env → Uuid → Customer → Db → Db
save_customer env customer_id c db = record db {
  customers = update customer_id (record c { updated_at = env.now }) db.customers;
}

abbrev pub customer_updated : Env → Uuid → CustomerUpdate → Customer → Db → Db
customer_updated env customer_id input c db =
    if same_customer (with_changes input c) c
    then db
    else save_customer env customer_id (with_changes input c) db

unfoldable pub update_customer : Env → Uuid → CustomerUpdate → Db → Result (Customer × Db)
update_customer env customer_id input db = do
  customer ← get_customer customer_id db
  db' ← flush (customer_updated env customer_id input customer db)
  ok (with_changes input customer, db')

abbrev is_of : Uuid → Uuid × WeighingTask → Bool
is_of customer_id (_, t) = elim t.customer_id [ none ↦ false | some c ↦ c == customer_id ]

-- Deleted tasks count too.
abbrev pub customer_history : Uuid → Db → ℕ
customer_history customer_id db = length (where_ (is_of customer_id) db.tasks)

abbrev pub customer_deleted : Env → Uuid → DeleteEntityInput → Option Uuid → Customer → Db → Db
customer_deleted env customer_id input operator_id customer db =
    add_audit env 0 operator_id "CUSTOMER_DELETED" "Customer" customer_id
      (some (("deleted_at", JsonValue.null) ∷ []))
      (some (("deleted_at", JsonValue.time_text env.now) ∷ [])) (some input.reason)
      (save_customer env customer_id (record customer { deleted_at = some env.now }) db)

unfoldable pub delete_customer : Env → Uuid → DeleteEntityInput → Option Uuid → Db → Result Db
delete_customer env customer_id input operator_id db = do
  customer ← get_customer customer_id db
  raise_if (ltb 0 (customer_history customer_id db)) customer_has_history
  flush (customer_deleted env customer_id input operator_id customer db)
