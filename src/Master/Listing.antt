-- ===== src/Master/Listing.antt =====
-- What the two lists of the master data hold, and in which order.
use timber_ops.Prelude.{nat_eq, is_none, where_, arith}
use timber_ops.Prelude.Sorting.{order_by-perm, IsOrdered, order_by-IsOrdered}
use mathlib.Core.List.{Perm}
use timber_ops.Store.Db.{Db}
use timber_ops.Master.Vehicles.{vehicle_le, list_vehicles}
use timber_ops.Master.Customers.{customer_le, list_customers}

-- The lists of vehicles and of customers hold the rows that are not deleted, each once, in the order
-- of creation, and of ids where that is the same.
pub lists_active :
    (db : Db)
    → Perm (list_vehicles db) (where_ (λ r. is_none r.1.deleted_at) db.vehicles)
      × IsOrdered vehicle_le (list_vehicles db)
      × Perm (list_customers db) (where_ (λ r. is_none r.1.deleted_at) db.customers)
      × IsOrdered customer_le (list_customers db)
unfolding list_vehicles list_customers
lists_active db = (
  order_by-perm vehicle_le (where_ (λ r. is_none r.1.deleted_at) db.vehicles),
  order_by-IsOrdered vehicle_le (λ x y h. ground arith) (λ x y z h i. ground arith)
      (where_ (λ r. is_none r.1.deleted_at) db.vehicles),
  order_by-perm customer_le (where_ (λ r. is_none r.1.deleted_at) db.customers),
  order_by-IsOrdered customer_le (λ x y h. ground arith) (λ x y z h i. ground arith)
      (where_ (λ r. is_none r.1.deleted_at) db.customers),
)
