-- ===== src/System/Lifecycle.antt =====
-- How a task may develop under any requests.
use timber_ops.Prelude.{◌≤◌, ◌≡◌, inl, inr, some, lookup, arith}
use timber_ops.Domain.Enums.{WeighingStatus}
use timber_ops.Domain.Decimal.{Tons}
use timber_ops.Domain.Weighing.{WeightCalculation}
use timber_ops.Domain.Weighing.Outcome.{IsAssessment}
use timber_ops.Store.Rows.{Uuid, Time, WeighingTask}
use timber_ops.Store.Db.{Db, Env}
use timber_ops.Weighing.Readings.{with_gross}
use timber_ops.System.Moves.{
  Move, tare, prepare, gross, complete, cancel, delete, Transition, tared, prepared, overweight,
  weighed, completed, cancelled, kept,
}
use timber_ops.Weighing.Tasks.{touched}

-- Any number of transitions.
pub data Reaches (s : WeighingStatus) : WeighingStatus → Type 0 where
  here : Reaches s s
  next : {u v : WeighingStatus} → Reaches s u → Transition u v → Reaches s v

-- What a task was created with, and keeps.
pub record SameOrigin (t t' : WeighingTask) : Type 0 where
  pub task_no : t'.task_no ≡ t.task_no
  pub vehicle : t'.vehicle_id ≡ t.vehicle_id
  pub customer : t'.customer_id ≡ t.customer_id
  pub direction : t'.weighing_direction ≡ t.weighing_direction
  pub cargo : t'.cargo_type ≡ t.cargo_type
  pub cargo_name : t'.cargo_name ≡ t.cargo_name
  pub cargo_remark : t'.cargo_remark ≡ t.cargo_remark
  pub driver : t'.driver_name_snapshot ≡ t.driver_name_snapshot
  pub phone : t'.driver_phone_snapshot ≡ t.driver_phone_snapshot
  pub allowed : t'.allowed_gross_weight_tons ≡ t.allowed_gross_weight_tons
  pub creator : t'.created_by ≡ t.created_by
  pub creation : t'.created_at ≡ t.created_at

pub record Evolves (t t' : WeighingTask) : Type 0 where
  pub path : Reaches t.status t'.status
  pub origin : SameOrigin t t'
  pub version : t.version ≤ t'.version

-- the transition of a gross reading, by its verdict
gross-Transition :
    (now : Time) (t : WeighingTask) (w : Tons) (c : WeightCalculation)
    → IsAssessment w t.allowed_gross_weight_tons c
    → Transition WeighingStatus.wait_gross (with_gross now c t).status
gross-Transition now t w c a = elim a.verdict [
  | inl (normal, _, _) ↦ rw normal weighed
  | inr (over, _, _, _) ↦ rw over overweight
]

pub Move-Transition :
    (now : Time) (t t' : WeighingTask) → Move now t t' → Transition t.status t'.status
Move-Transition now t t' (tare w e d) = rw (d, e) tared
Move-Transition now t t' (prepare e d) = rw (d, e) prepared
Move-Transition now t t' (gross w c e te a d) = rw (d, e) (gross-Transition now t w c a)
Move-Transition now t t' (complete e n d) = rw (d, e) completed
Move-Transition now t t' (cancel e d) = rw d (cancelled t.status e)
Move-Transition now t t' (delete op input e d) = rw d (kept t.status e)

pub Move-Evolves :
    (env : Env) (t t' : WeighingTask) → Move env.now t t' → Evolves t (touched env t')
Move-Evolves env t t' m = record {
  path = next here (Move-Transition env.now t t' m);
  origin = origin_of m;
  version = version_of m;
}
  where
    origin_of : Move env.now t t' → SameOrigin t (touched env t')
    origin_of (tare _ _ d) = ground arith
    origin_of (prepare _ d) = ground arith
    origin_of (gross _ _ _ _ _ d) = ground arith
    origin_of (complete _ _ d) = ground arith
    origin_of (cancel _ d) = ground arith
    origin_of (delete _ _ _ d) = ground arith

    version_of : Move env.now t t' → t.version ≤ t'.version
    version_of (tare _ _ d) = rw d (omega arith)
    version_of (prepare _ d) = rw d (omega arith)
    version_of (gross _ _ _ _ _ d) = rw d (omega arith)
    version_of (complete _ _ d) = rw d (omega arith)
    version_of (cancel _ d) = rw d (omega arith)
    version_of (delete _ _ _ d) = rw d (omega arith)

module _ (id : Uuid) (t : WeighingTask) where
  -- The task is there, and has developed out of `t`.
  abbrev HasEvolved : Db → Type 0
  HasEvolved db = (u : WeighingTask) × (lookup id db.tasks ≡ some u) × Evolves t u
