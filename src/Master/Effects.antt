-- ===== src/Master/Effects.antt =====
-- What the calls on vehicles and customers have tested and written when they return.
use timber_ops.Prelude.{◌≡◌, not, Option, none, some, is_none, ltb, false, first, lookup, arith}
use timber_ops.Domain.Errors.{ok, >>=-eq-ok, raise_if-eq-ok}
use timber_ops.Store.Rows.{Uuid, Vehicle, Customer}
use timber_ops.Store.Db.{Db, Env}
use timber_ops.Store.Session.{IsCommitted, flush-eq-ok, commits-eq-ok, flushes-eq-ok}
use timber_ops.Weighing.Inputs.{DeleteEntityInput}
use timber_ops.Master.Vehicles
use timber_ops.Master.Vehicles.{
  VehicleCreate, VehicleUpdate, has_plate, new_vehicle, vehicle_inserted, create_vehicle,
  get_vehicle, vehicle_updated, update_vehicle, vehicle_history, vehicle_deleted, delete_vehicle,
}
use timber_ops.Master.Customers
use timber_ops.Master.Customers.{
  CustomerCreate, CustomerUpdate, new_customer, customer_inserted, create_customer, get_customer,
  customer_updated, update_customer, customer_history, customer_deleted, delete_customer,
}

pub get_vehicle-eq-ok :
    (id : Uuid) (db : Db) (v : Vehicle)
    → get_vehicle id db ≡ ok v
    → (lookup id db.vehicles ≡ some v) × (v.deleted_at ≡ none)
unfolding get_vehicle
get_vehicle-eq-ok id db v h = ground arith

pub get_customer-eq-ok :
    (id : Uuid) (db : Db) (c : Customer)
    → get_customer id db ≡ ok c
    → (lookup id db.customers ≡ some c) × (c.deleted_at ≡ none)
unfolding get_customer
get_customer-eq-ok id db c h = ground arith

module _ (env : Env) (db db' : Db) where
  pub create_vehicle-eq-ok :
      (input : VehicleCreate) (r : Uuid × Vehicle)
      → create_vehicle env input db ≡ ok (r, db')
      → (first (has_plate input.plate_number) db.vehicles ≡ none)
        × (r ≡ (env.uuid 0, new_vehicle env input))
        × (db' ≡ vehicle_inserted env input db)
        × IsCommitted db'
  unfolding create_vehicle
  create_vehicle-eq-ok input r h =
      let (free, h1) =
        raise_if-eq-ok (not (is_none (first (has_plate input.plate_number) db.vehicles))) _ _ _ h in
      let (same, written, good) =
        commits-eq-ok (vehicle_inserted env input db) (env.uuid 0, new_vehicle env input) r db'
          h1 in
      (ground arith, same, written, good)

  pub update_vehicle-eq-ok :
      (id : Uuid) (input : VehicleUpdate) (r : Vehicle)
      → update_vehicle env id input db ≡ ok (r, db')
      → (v : Vehicle) × (lookup id db.vehicles ≡ some v)
        × (v.deleted_at ≡ none)
        × (r ≡ Vehicles.with_changes input v)
        × (db' ≡ vehicle_updated env id input v db)
        × IsCommitted db'
  unfolding update_vehicle
  update_vehicle-eq-ok id input r h =
      let (v, ve, h1) = >>=-eq-ok (get_vehicle id db) _ _ h in
      let (found, live) = get_vehicle-eq-ok id db v ve in
      let (same, written, good) =
        commits-eq-ok (vehicle_updated env id input v db) (Vehicles.with_changes input v) r db'
          h1 in
      (v, found, live, same, written, good)

  pub delete_vehicle-eq-ok :
      (id : Uuid) (input : DeleteEntityInput) (op : Option Uuid)
      → delete_vehicle env id input op db ≡ ok db'
      → (v : Vehicle) × (lookup id db.vehicles ≡ some v)
        × (v.deleted_at ≡ none)
        × (ltb 0 (vehicle_history id db) ≡ false)
        × (db' ≡ vehicle_deleted env id input op v db)
        × IsCommitted db'
  unfolding delete_vehicle
  delete_vehicle-eq-ok id input op h =
      let (v, ve, h1) = >>=-eq-ok (get_vehicle id db) _ _ h in
      let (found, live) = get_vehicle-eq-ok id db v ve in
      let (unused, h2) = raise_if-eq-ok (ltb 0 (vehicle_history id db)) _ _ _ h1 in
      let (written, good) = flush-eq-ok (vehicle_deleted env id input op v db) db' h2 in
      (v, found, live, unused, written, good)

  pub create_customer-eq-ok :
      (input : CustomerCreate) (r : Uuid × Customer)
      → create_customer env input db ≡ ok (r, db')
      → (r ≡ (env.uuid 0, new_customer env input))
        × (db' ≡ customer_inserted env input db)
        × IsCommitted db'
  unfolding create_customer
  create_customer-eq-ok input r h =
      flushes-eq-ok (customer_inserted env input db) (env.uuid 0, new_customer env input) r db' h

  pub update_customer-eq-ok :
      (id : Uuid) (input : CustomerUpdate) (r : Customer)
      → update_customer env id input db ≡ ok (r, db')
      → (c : Customer) × (lookup id db.customers ≡ some c)
        × (c.deleted_at ≡ none)
        × (r ≡ Customers.with_changes input c)
        × (db' ≡ customer_updated env id input c db)
        × IsCommitted db'
  unfolding update_customer
  update_customer-eq-ok id input r h =
      let (c, ce, h1) = >>=-eq-ok (get_customer id db) _ _ h in
      let (found, live) = get_customer-eq-ok id db c ce in
      let (same, written, good) =
        flushes-eq-ok (customer_updated env id input c db) (Customers.with_changes input c) r db'
          h1 in
      (c, found, live, same, written, good)

  pub delete_customer-eq-ok :
      (id : Uuid) (input : DeleteEntityInput) (op : Option Uuid)
      → delete_customer env id input op db ≡ ok db'
      → (c : Customer) × (lookup id db.customers ≡ some c)
        × (c.deleted_at ≡ none)
        × (ltb 0 (customer_history id db) ≡ false)
        × (db' ≡ customer_deleted env id input op c db)
        × IsCommitted db'
  unfolding delete_customer
  delete_customer-eq-ok id input op h =
      let (c, ce, h1) = >>=-eq-ok (get_customer id db) _ _ h in
      let (found, live) = get_customer-eq-ok id db c ce in
      let (unused, h2) = raise_if-eq-ok (ltb 0 (customer_history id db)) _ _ _ h1 in
      let (written, good) = flush-eq-ok (customer_deleted env id input op c db) db' h2 in
      (c, found, live, unused, written, good)
