-- ===== src/Audit.antt =====
-- AuditService of backend/app/services/audit_service.py: the audit trail with its filters, and what
-- each entry shows of its target.
pub mod Trail
pub mod Displays
pub mod Listing
use Prim.Native.String.{◌++◌}
use timber_ops.Prelude.{
  ℕ, String, string_eq, Bool, true, false, not, ◌&&◌, ◌||◌, ◌==◌, nat_beq, nat_eq, option_eq, leb,
  ltb, any, Option, none, some, List, [], ◌∷◌, map, where_, lookup, Table, if◌then◌else◌,
}
use timber_ops.Prelude.Sorting.{order_by}
use timber_ops.Domain.Days.{is_after_end, overflows_by, starts_by, ends_after}
use timber_ops.Domain.Decimal.{Money}
use timber_ops.Domain.Errors.{Result, ok, business_rule, overflow_error, ◌>>◌, raise_if}
use timber_ops.Store.Rows.{
  Uuid, Time, JsonObject, AuditLog, User, WeighingTask, Vehicle, Customer, BillingRecord,
}
use timber_ops.Store.Db.{Db}

pub record AuditFilter : Type 0 where
  pub start_date : Option ℕ
  pub end_date : Option ℕ
  pub operator_id : Option Uuid
  pub action : Option String
  pub target_type : Option String

pub record AuditLogRead : Type 0 where
  pub id : Uuid
  pub operator_id : Option Uuid
  pub operator_name : Option String
  pub action : String
  pub target_type : String
  pub target_id : Option Uuid
  pub target_display : Option String
  pub reason : Option String
  pub before_value : Option JsonObject
  pub after_value : Option JsonObject
  pub created_at : Time

-- The values of TARGET_TYPE_ALIASES.
pub data TargetKind : Type 0 where
  task vehicle customer billing : TargetKind

abbrev pub kind_index : TargetKind → ℕ
kind_index TargetKind.task = 0
kind_index TargetKind.vehicle = 1
kind_index TargetKind.customer = 2
kind_index TargetKind.billing = 3

abbrev pub is_kind : TargetKind → TargetKind → Bool
is_kind a b = nat_beq (kind_index a) (kind_index b)

-- `TARGET_TYPE_ALIASES.get`
unfoldable pub target_kind : String → Option TargetKind
target_kind s =
    if s == "WeighingTask" || s == "WEIGHING_TASK"
    then some TargetKind.task
    else if s == "Vehicle" || s == "VEHICLE"
    then some TargetKind.vehicle
    else if s == "Customer" || s == "CUSTOMER"
    then some TargetKind.customer
    else if s == "BillingRecord" || s == "BILLING_RECORD"
    then some TargetKind.billing
    else none

-- `" · ".join` of the parts that are neither None nor empty
abbrev pub with_part : String → String → String
with_part part rest = if rest == "" then part else part ++ (" · " ++ rest)

abbrev pub join_display : List (Option String) → String
join_display [] = ""
join_display (none ∷ parts) = join_display parts
join_display (some part ∷ parts) =
    let rest = join_display parts in if part == "" then rest else with_part part rest

abbrev pub is_of_kind : TargetKind → Option TargetKind → Bool
is_of_kind kind none = false
is_of_kind kind (some k) = is_kind k kind

-- `ids_by_type.get(kind, set())`, as the test for membership
abbrev pub is_wanted : List (Uuid × AuditLog) → TargetKind → Uuid → Bool
is_wanted logs kind id =
    any (λ l. is_of_kind kind (target_kind l.1.target_type) && l.1.target_id == some id) logs

-- The dictionary `displays`.
abbrev pub Displays : Type 0
Displays = TargetKind → Uuid → Option String

abbrev pub no_displays : Displays
no_displays kind id = none

-- `displays[(kind, id)] = display`, if the display is not empty
abbrev pub put : TargetKind → Uuid → String → Displays → Displays
put kind id display displays k i =
    if not (display == "") && (is_kind k kind && i == id) then some display else displays k i

-- The loop over the rows of one query.
abbrev pub for_rows :
    {V : Type 0} → TargetKind → (V → String) → (Uuid → Bool) → Table V → Displays → Displays
for_rows kind show wanted [] displays = displays
for_rows kind show wanted ((id, v) ∷ rows) displays =
    for_rows kind show wanted rows
      (λ k i. if wanted id then put kind id (show v) displays k i else displays k i)

-- The column of an outer join.
abbrev pub plate_in : Option Vehicle → Option String
plate_in none = none
plate_in (some v) = some v.plate_number

abbrev pub task_no_in : Option WeighingTask → Option String
task_no_in none = none
task_no_in (some t) = some t.task_no

abbrev pub task_display : Db → WeighingTask → String
task_display db t = join_display (some t.task_no ∷ plate_in (lookup t.vehicle_id db.vehicles) ∷ [])

abbrev pub name_of : Option Uuid → Db → Option String
name_of none db = none
name_of (some k) db = elim (lookup k db.users) [ none ↦ none | some u ↦ some u.real_name ]

-- A filter that is None lets every entry pass.
abbrev pub fits_id : Option Uuid → Option Uuid → Bool
fits_id none id = true
fits_id (some o) id = id == some o

abbrev pub fits_text : Option String → String → Bool
fits_text none s = true
fits_text (some t) s = s == t

abbrev pub is_selected : AuditFilter → Uuid × AuditLog → Bool
is_selected f (_, l) =
    starts_by f.start_date l.created_at
    && ends_after f.end_date l.created_at
    && fits_id f.operator_id l.operator_id
    && fits_text f.action l.action
    && fits_text f.target_type l.target_type

-- `ORDER BY created_at DESC, id`
abbrev pub log_le : Uuid × AuditLog → Uuid × AuditLog → Bool
log_le (i, a) (j, b) = ltb b.created_at a.created_at || (a.created_at == b.created_at && leb i j)

-- The texts of an id and of a fee, `str` and `¥{:.2f}`, are parameters.
module _ (uuid_text : Uuid → String) (fee_text : Money → String) where
  abbrev pub billing_display : Db → BillingRecord → String
  billing_display db b = join_display (
      task_no_in (lookup b.weighing_task_id db.tasks)
      ∷ plate_in (lookup b.vehicle_id db.vehicles)
      ∷ some (fee_text b.fee_amount)
      ∷ [])

  -- `_resolve_target_displays`
  abbrev pub resolve_target_displays : Db → List (Uuid × AuditLog) → Displays
  resolve_target_displays db logs =
      for_rows TargetKind.billing (billing_display db) (is_wanted logs TargetKind.billing)
        db.billing_records
        (for_rows TargetKind.customer (λ (c : Customer). c.name)
          (is_wanted logs TargetKind.customer) db.customers
          (for_rows TargetKind.vehicle (λ (v : Vehicle). v.plate_number)
            (is_wanted logs TargetKind.vehicle) db.vehicles
            (for_rows TargetKind.task (task_display db) (is_wanted logs TargetKind.task) db.tasks
              no_displays)))

  abbrev pub get_or_id : Uuid → Option String → String
  get_or_id id none = uuid_text id
  get_or_id id (some display) = display

  abbrev pub shown : Displays → Uuid → Option TargetKind → String
  shown displays id none = uuid_text id
  shown displays id (some kind) = get_or_id id (displays kind id)

  -- `_target_display`
  abbrev pub target_display : Displays → String → Option Uuid → Option String
  target_display displays target_type none = none
  target_display displays target_type (some id) = some (shown displays id (target_kind target_type))

  abbrev pub log_read : Db → Displays → Uuid × AuditLog → AuditLogRead
  log_read db displays (id, l) = record {
    id = id;
    operator_id = l.operator_id;
    operator_name = name_of l.operator_id db;
    action = l.action;
    target_type = l.target_type;
    target_id = l.target_id;
    target_display = target_display displays l.target_type l.target_id;
    reason = l.reason;
    before_value = l.before_value;
    after_value = l.after_value;
    created_at = l.created_at;
  }

  unfoldable pub list_logs : AuditFilter → Db → Result (List AuditLogRead)
  list_logs f db = do
    raise_if (is_after_end f.start_date f.end_date) business_rule
    raise_if (overflows_by f.start_date f.end_date) overflow_error
    let rows = order_by log_le (where_ (is_selected f) db.audit_logs)
    ok (map (log_read db (resolve_target_displays db rows)) rows)
