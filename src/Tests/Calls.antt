-- ===== src/Tests/Calls.antt =====
-- The theorems on single calls, applied to the small database.
use timber_ops.Prelude.{◌+◌, ◌*◌, ◌^◌, ◌≤◌, ◌<◌, ◌≡◌, ◌⊎◌, refl, some, none, [], ◌∷◌, lookup}
use timber_ops.Prelude.Int.{pos, ◌-ℤ◌, ◌≤ℤ◌}
use timber_ops.Domain.Enums.{VehicleType, WeighingStatus, WeightResult, WeightType, PaymentStatus}
use timber_ops.Domain.Errors.{
  ok, err, validation, business_rule, invalid_state, conflict, reversed_billing_immutable,
}
use timber_ops.Domain.Decimal.{with_sign, precision_limit, quantize_tons}
use timber_ops.Domain.Decimal.Rounding.{quantize_tons_nearest}
use timber_ops.Domain.Weighing.{calculate_weight, zero_tons}
use timber_ops.Domain.Weighing.Outcome.{assess, IsAssessment, calculate_weight_decides}
use timber_ops.Store.Rows.{Uuid, WeighingTask, BillingRecord}
use timber_ops.Store.Db.{Db}
use timber_ops.Store.Constraints.{satisfies, in_range}
use timber_ops.Store.Session.{flush, commit, IsCommitted}
use timber_ops.Billing.Fees.{
  billing_of, effective_rule, newest, ensure_record_for_completed_task, create_record,
}
use timber_ops.Billing.Payments.{payment_written, mark_paid, waive}
use timber_ops.Billing.Finality.{mark_paid_final}
use timber_ops.Weighing.Tasks.{
  save_task, touched, get_task_for_update, append_record, has_gross_record,
}
use timber_ops.Weighing.Readings.{with_gross, gross_written, record_gross, record_gross_like}
use timber_ops.Weighing.Lifecycle.{with_completion, complete_audited, complete_task}
use timber_ops.Weighing.Overweight.{record_gross_overweight}
use timber_ops.Weighing.Charges.{IsCharged, complete_task-IsCharged}
use timber_ops.Reversal.{reverse}
use timber_ops.Reversal.Effects.{reversal_written}
use timber_ops.Reversal.Once.{reverse_once}
use timber_ops.Reversal.Race.{reverse_race}
use timber_ops.Master.Vehicles.{VehicleCreate, create_vehicle}
use timber_ops.Master.Plates.{create_vehicle_taken}
use timber_ops.Tests.Fixtures.{
  env_at, truck, weight, gross_input, undo_input, waiting_task, done_task, fee, reversal,
  waiting_db, weighed_db, done_db, reversed_db, scrapped_db,
}

-- 15.0005 t is rounded up.
quantize_tons_nearest_example :
    (2 * (150005 * 1000) < 15001 * (2 * 10 ^ 4) + 10 ^ 4)
    × (15001 * (2 * 10 ^ 4) ≤ 2 * (150005 * 1000) + 10 ^ 4)
    × (pos 15001 ≡ with_sign (pos 150005) 15001)
    × (15001 < precision_limit)
unfolding quantize_tons
quantize_tons_nearest_example =
    quantize_tons_nearest (record { coefficient = pos 150005; places = 4 }) (pos 15001) refl

calculate_weight_decides_example :
    (calculate_weight (weight 15000) (weight 50000) (weight 49000)
        ≡ ok (assess (pos 15000) (pos 50000) (pos 49000)))
      × IsAssessment (pos 15000) (pos 49000) (assess (pos 15000) (pos 50000) (pos 49000))
    ⊎ ((pos 15000 ≤ℤ zero_tons) ⊎ (pos 49000 ≤ℤ zero_tons) ⊎ (pos 50000 ≤ℤ pos 15000))
      × (calculate_weight (weight 15000) (weight 50000) (weight 49000) ≡ err validation)
unfolding quantize_tons
calculate_weight_decides_example =
    calculate_weight_decides (weight 15000) (weight 50000) (weight 49000) (pos 15000) (pos 50000)
      (pos 49000) refl refl refl

abbrev overweight_task : WeighingTask
overweight_task = with_gross 5 (assess (pos 15000) (pos 50000) (pos 49000)) waiting_task

abbrev overweight_db : Db
overweight_db =
    gross_written (env_at 5) 20 waiting_task WeightType.gross
      (assess (pos 15000) (pos 50000) (pos 49000)) (some 2) none waiting_db

gross_returns :
    record_gross (env_at 5) 20 (gross_input 50000) (some 2) waiting_db
    ≡ ok (overweight_task, overweight_db)
unfolding record_gross get_task_for_update has_gross_record record_gross_like calculate_weight
    quantize_tons ◌-ℤ◌ commit append_record
gross_returns = refl

record_gross_overweight_example :
    (overweight_task.status ≡ WeighingStatus.wait_gross)
    × (complete_task (env_at 6) 20 (some 2) overweight_db ≡ err business_rule)
    × (record_gross (env_at 6) 20 (gross_input 40000) (some 2) overweight_db ≡ err invalid_state)
record_gross_overweight_example =
    record_gross_overweight (env_at 5) (env_at 6) 20 (gross_input 50000) (gross_input 40000)
      (some 2) (some 2) waiting_db overweight_task overweight_db gross_returns refl

-- The database once task 20 is completed at time 7.
abbrev charged_db : Db
charged_db =
    complete_audited (env_at 7) 20 (some 2)
      (record (save_task (env_at 7) 20 done_task weighed_db) { billing_records = (70, fee) ∷ [] })

complete_returns : complete_task (env_at 7) 20 (some 2) weighed_db ≡ ok (done_task, charged_db)
unfolding complete_task get_task_for_update ensure_record_for_completed_task create_record
    effective_rule newest flush commit
complete_returns = refl

complete_task-IsCharged_example :
    (t : WeighingTask) × (b : Uuid × BillingRecord) × (lookup 20 weighed_db.tasks ≡ some t)
    × (t.status ≡ WeighingStatus.gross_completed)
    × (t.weight_result ≡ WeightResult.normal)
    × (done_task ≡ with_completion 7 t)
    × (lookup 20 charged_db.tasks ≡ some (touched (env_at 7) done_task))
    × (billing_of 20 charged_db ≡ some b)
    × IsCharged (env_at 7) 20 t.vehicle_id weighed_db b
complete_task-IsCharged_example =
    complete_task-IsCharged (env_at 7) 20 (some 2) weighed_db done_task charged_db complete_returns

abbrev settled_fee : PaymentStatus → BillingRecord
settled_fee s = record fee { payment_status = s }

abbrev paid_db : Db
paid_db = payment_written (env_at 8) 70 PaymentStatus.paid "BILLING_PAID" 2 fee done_db

abbrev waived_db : Db
waived_db = payment_written (env_at 8) 70 PaymentStatus.waived "BILLING_WAIVED" 2 fee done_db

paid_returns : mark_paid (env_at 8) 70 2 done_db ≡ ok (settled_fee PaymentStatus.paid, paid_db)
unfolding mark_paid flush
paid_returns = refl

mark_paid_final_example :
    (PaymentStatus.paid ≡ PaymentStatus.paid)
    × (mark_paid (env_at 9) 70 2 paid_db ≡ ok (settled_fee PaymentStatus.paid, paid_db))
    × (waive (env_at 9) 70 2 paid_db ≡ err business_rule)
mark_paid_final_example =
    mark_paid_final (env_at 8) (env_at 9) 70 2 2 done_db (settled_fee PaymentStatus.paid) paid_db
      paid_returns

waived_returns : waive (env_at 8) 70 2 done_db ≡ ok (settled_fee PaymentStatus.waived, waived_db)
unfolding waive flush
waived_returns = refl

-- The database once task 20 is reversed at time 8.
abbrev undone_db : Db
undone_db =
    reversal_written (env_at 8) 20 undo_input 2 (λ d. d) done_db (80, reversal) done_db done_task
      done_db

reverse_returns :
    reverse (env_at 8) 20 undo_input 2 (λ d. d) done_db ≡ ok ((80, reversal), undone_db)
unfolding reverse get_task_for_update flush
reverse_returns = refl

reverse_once_example :
    (reverse (env_at 9) 20 undo_input 2 (λ d. d) undone_db ≡ ok ((80, reversal), undone_db))
    × ((k : Uuid) (b : BillingRecord)
        → lookup k undone_db.billing_records ≡ some b
        → b.weighing_task_id ≡ 20
        → (mark_paid (env_at 9) k 2 undone_db ≡ err reversed_billing_immutable)
          × (waive (env_at 9) k 2 undone_db ≡ err reversed_billing_immutable))
reverse_once_example =
    reverse_once (env_at 8) (env_at 9) 20 undo_input undo_input 2 2 (λ d. d) done_db (80, reversal)
      undone_db reverse_returns

done-IsCommitted : IsCommitted done_db
unfolding satisfies in_range
done-IsCommitted = record { constraints = refl; ranges = refl }

reversed-IsCommitted : IsCommitted reversed_db
unfolding satisfies in_range
reversed-IsCommitted = record { constraints = refl; ranges = refl }

-- The other session's reversal is written first.
reverse_race_example :
    reverse (env_at 9) 20 undo_input 2 (λ d. record d { reversals = (80, reversal) ∷ [] }) done_db
    ≡ ok ((80, reversal), reversed_db)
reverse_race_example =
    reverse_race (env_at 9) 20 undo_input 2 (λ d. record d { reversals = (80, reversal) ∷ [] })
      done_db done_task (80, reversal) done-IsCommitted reversed-IsCommitted
      (record { found = refl; kept = refl }) refl refl refl refl

abbrev same_plate : VehicleCreate
same_plate = record {
  plate_number = "A-100";
  driver_name = none;
  driver_phone = none;
  vehicle_type = VehicleType.small;
  allowed_gross_weight_tons = pos 18000;
  remark = none;
}

scrapped-IsCommitted : IsCommitted scrapped_db
unfolding satisfies in_range
scrapped-IsCommitted = record { constraints = refl; ranges = refl }

-- The plate of a deleted vehicle.
create_vehicle_taken_example : create_vehicle (env_at 3) same_plate scrapped_db ≡ err conflict
create_vehicle_taken_example =
    create_vehicle_taken (env_at 3) same_plate scrapped_db 1 (record truck { deleted_at = some 2 })
      scrapped-IsCommitted refl refl refl
