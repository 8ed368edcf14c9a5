-- ===== src/System/Execution/MasterChanges.antt =====
-- The calls on vehicles and customers, as changes.
use timber_ops.Prelude.{
  ◌≡◌, refl, ◌⊎◌, nat_beq_iff, same_row, inl, inr, Bool-cases, Option, some, lookup, update,
  nat_beq, lookup-insert_old, lookup-update_self, lookup-update_ne, arith,
}
use timber_ops.Domain.Errors.{ok}
use timber_ops.Store.Rows.{Uuid, Vehicle, Customer}
use timber_ops.Store.Db.{Db, Env}
use timber_ops.Weighing.Inputs.{DeleteEntityInput}
use timber_ops.Master.Vehicles
use timber_ops.Master.Vehicles.{
  VehicleCreate, VehicleUpdate, create_vehicle, update_vehicle, delete_vehicle, same_vehicle,
  vehicle_history,
}
use timber_ops.Master.Customers
use timber_ops.Master.Customers.{
  CustomerCreate, CustomerUpdate, create_customer, update_customer, delete_customer, same_customer,
}
use timber_ops.Master.Effects.{
  create_vehicle-eq-ok, update_vehicle-eq-ok, delete_vehicle-eq-ok, create_customer-eq-ok,
  update_customer-eq-ok, delete_customer-eq-ok,
}
use timber_ops.System.Changes.{
  Change, IsKept, unchanged, vehicles_changed, customers_changed, same, more,
}

-- an update of one vehicle keeps every row, under its key
update_keeps :
    (i : Uuid) (new old : Vehicle) (db : Db)
    → lookup i db.vehicles ≡ some old
    → new.plate_number ≡ old.plate_number
    → (new.deleted_at ≡ old.deleted_at) ⊎ (vehicle_history i db ≡ 0)
    → (k : Uuid) (v : Vehicle) → lookup k db.vehicles ≡ some v
    → IsKept k db v (update i new db.vehicles)
update_keeps i new old db found plate life k v h = elim (Bool-cases (nat_beq k i)) [
  | inl e ↦
      let same = same_row k i db.vehicles v old e h found in
      let key : k ≡ i = (nat_beq_iff k i).0 e in
      record {
        row = new;
        stands = rw key (lookup-update_self i new old db.vehicles found);
        plate = rw same plate;
        life = rw (same, key) life;
      }
  | inr ne ↦ record {
    row = v;
    stands = ground (arith, lookup-update_ne k i new db.vehicles);
    plate = refl;
    life = inl refl;
  }
]

module _ (env : Env) (db db' : Db) where
  pub create_vehicle-Change :
      (input : VehicleCreate) (r : Uuid × Vehicle)
      → create_vehicle env input db ≡ ok (r, db')
      → Change env db db'
  create_vehicle-Change input r h =
      let (_, _, written, _) = create_vehicle-eq-ok env db db' input r h in
      vehicles_changed _ _
        (λ k v e. record {
          row = v;
          stands = lookup-insert_old k (env.uuid 0) _ v db.vehicles e;
          plate = refl;
          life = inl refl;
        })
        (same refl) written

  pub update_vehicle-Change :
      (id : Uuid) (input : VehicleUpdate) (r : Vehicle)
      → update_vehicle env id input db ≡ ok (r, db')
      → Change env db db'
  update_vehicle-Change id input r h =
      let (v, found, _, _, written, _) = update_vehicle-eq-ok env db db' id input r h in
      elim (Bool-cases (same_vehicle (Vehicles.with_changes input v) v)) [
        | inl nothing ↦ unchanged (rw nothing at written)
        | inr new ↦
            vehicles_changed _ _ (update_keeps id _ v db found refl (inl refl)) (same refl)
              (rw new at written)
      ]

  pub delete_vehicle-Change :
      (id : Uuid) (input : DeleteEntityInput) (op : Option Uuid)
      → delete_vehicle env id input op db ≡ ok db'
      → Change env db db'
  delete_vehicle-Change id input op h =
      let (v, found, _, unused, written, _) = delete_vehicle-eq-ok env db db' id input op h in
      vehicles_changed _ _ (update_keeps id _ v db found refl (inr (ground arith))) (more _ _ refl)
        written

  pub create_customer-Change :
      (input : CustomerCreate) (r : Uuid × Customer)
      → create_customer env input db ≡ ok (r, db')
      → Change env db db'
  create_customer-Change input r h =
      let (_, written, _) = create_customer-eq-ok env db db' input r h in
      customers_changed _ _ (same refl) written

  pub update_customer-Change :
      (id : Uuid) (input : CustomerUpdate) (r : Customer)
      → update_customer env id input db ≡ ok (r, db')
      → Change env db db'
  update_customer-Change id input r h =
      let (c, _, _, _, written, _) = update_customer-eq-ok env db db' id input r h in
      elim (Bool-cases (same_customer (Customers.with_changes input c) c)) [
        | inl nothing ↦ unchanged (rw nothing at written)
        | inr new ↦ customers_changed _ _ (same refl) (rw new at written)
      ]

  pub delete_customer-Change :
      (id : Uuid) (input : DeleteEntityInput) (op : Option Uuid)
      → delete_customer env id input op db ≡ ok db'
      → Change env db db'
  delete_customer-Change id input op h =
      let (c, _, _, _, written, _) = delete_customer-eq-ok env db db' id input op h in
      customers_changed _ _ (more _ _ refl) written
