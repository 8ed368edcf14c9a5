-- ===== src/Master/Plates.antt =====
-- Plate numbers are unique, also among deleted vehicles.
use timber_ops.Prelude.{
  ◌≡◌, inl, inr, Bool, true, false, ◌==◌, nat_eq, string_eq, some, lookup, first, distinct,
  Option-cases, first_where-lookup, arith,
}
use timber_ops.Domain.Errors.{err, conflict}
use timber_ops.Store.Rows.{Uuid, Vehicle}
use timber_ops.Store.Db.{Db, Env}
use timber_ops.Store.Constraints.{satisfies, in_range, vehicles_ok, fits_column}
use timber_ops.Store.Session.{commit, flush, IsCommitted}
use timber_ops.Store.Uniqueness.{distinct-append_false, all-append}
use timber_ops.Master.Vehicles.{VehicleCreate, new_vehicle, vehicle_inserted, create_vehicle}

abbrev same_plate : Uuid × Vehicle → Uuid × Vehicle → Bool
same_plate a b = a.1.plate_number == b.1.plate_number

module _ (env : Env) (input : VehicleCreate) (db : Db) where
  abbrev row : Vehicle
  row = new_vehicle env input

  twice :
      (k : Uuid) (v : Vehicle)
      → lookup k db.vehicles ≡ some v
      → v.plate_number ≡ input.plate_number
      → distinct same_plate (vehicle_inserted env input db).vehicles ≡ false
  twice k v found e =
      let there : (v.plate_number == input.plate_number) ≡ true =
        (string_eq.same_iff v.plate_number input.plate_number).1 e in
      elim (Option-cases (first (λ z. same_plate z (env.uuid 0, row)) db.vehicles)) [
        | inl missing ↦ absurd (
            first_where-lookup (λ w. w.plate_number == input.plate_number) k v db.vehicles found
              there missing)
        | inr (y, e) ↦ distinct-append_false same_plate (env.uuid 0, row) y db.vehicles e
      ]

  refused :
      (k : Uuid) (v : Vehicle)
      → lookup k db.vehicles ≡ some v
      → v.plate_number ≡ input.plate_number
      → satisfies (vehicle_inserted env input db) ≡ false
  unfolding satisfies vehicles_ok
  refused k v found e = let dup = twice k v found e in ground (arith, dup)

  fits :
      in_range db ≡ true
      → fits_column input.allowed_gross_weight_tons ≡ true
      → in_range (vehicle_inserted env input db) ≡ true
  unfolding in_range
  fits g h = ground (
    arith,
    all-append (λ r. fits_column r.1.allowed_gross_weight_tons) db.vehicles (env.uuid 0, row),
  )

-- If a vehicle of the table has the plate number of a command, also one that is deleted, then
-- `create_vehicle` refuses the command as a conflict; the database satisfies its constraints, and
-- the command's weight fits its column.
pub create_vehicle_taken :
    (env : Env) (input : VehicleCreate) (db : Db) (k : Uuid) (v : Vehicle)
    → IsCommitted db
    → fits_column input.allowed_gross_weight_tons ≡ true
    → lookup k db.vehicles ≡ some v
    → v.plate_number ≡ input.plate_number
    → create_vehicle env input db ≡ err conflict
unfolding create_vehicle commit flush
create_vehicle_taken env input db k v good narrow found e =
    let no = refused env input db k v found e in
    let wide = fits env input db good.ranges narrow in ground arith
