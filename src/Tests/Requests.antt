-- ===== src/Tests/Requests.antt =====
-- The theorems on runs of requests, applied to the small database.
use timber_ops.Prelude.{◌≡◌, refl, inl, some, [], ◌∷◌, ◌++◌, lookup, length, arith}
use timber_ops.Store.Rows.{WeighingRecord, WeighingReversal, AuditLog, BillingRecord}
use timber_ops.Prelude.Int.{◌-ℤ◌}
use timber_ops.Domain.Text.{is_blank}
use timber_ops.Domain.Decimal.{quantize_tons}
use timber_ops.Domain.Weighing.{calculate_weight}
use timber_ops.Billing.Fees.{
  ensure_record_for_completed_task, create_record, effective_rule, newest,
}
use timber_ops.Weighing.Tasks.{get_task_for_update, append_record, has_gross_record}
use timber_ops.Weighing.Readings.{
  record_tare, prepare_for_gross, record_gross, record_reweigh, record_gross_like,
}
use timber_ops.Weighing.Lifecycle.{create_task, complete_task}
use timber_ops.Store.Session.{commit}
use timber_ops.Billing.Payments.{reversal_of}
use timber_ops.System.Requests.{execute, step, run}
use timber_ops.System.Settled.{run-settled}
use timber_ops.System.Fees.{AreBilled, run-AreBilled}
use timber_ops.System.FeeRows.{IsLater, run-IsLater}
use timber_ops.System.Refunds.{AreRefundFree, run-AreRefundFree}
use timber_ops.System.Reversals.{run_frozen}
use timber_ops.System.Numbering.{IsNumbered, run-IsNumbered}
use timber_ops.System.History.{run_append_only}
use timber_ops.System.Fleet.{IsInFleet, run-IsInFleet}
use timber_ops.Tests.Fixtures.{
  truck, start, weighed, completion, payment, undoing, done_task, fee, reversal, weighed_db,
  done_db, reversed_db,
}

-- The day ends with the task completed, at the fee of the second rule.
day_ends :
    ((run (weighed ++ completion) start).billing_records ≡ (70, fee) ∷ [])
    × (length (run (weighed ++ completion) start).records ≡ 3)
unfolding run step execute create_task record_tare prepare_for_gross record_gross record_reweigh
    record_gross_like complete_task get_task_for_update quantize_tons commit append_record
    has_gross_record calculate_weight ◌-ℤ◌ is_blank ensure_record_for_completed_task create_record
    effective_rule newest
day_ends = (refl, refl)

run-settled_example : lookup 20 (run payment done_db).tasks ≡ some done_task
run-settled_example = run-settled 20 done_task payment done_db (inl refl) refl

run-AreBilled_example : AreBilled (run (weighed ++ completion) start)
run-AreBilled_example = run-AreBilled (weighed ++ completion) start (λ id. refl)

run-AreRefundFree_example : AreRefundFree (run undoing done_db)
run-AreRefundFree_example = run-AreRefundFree undoing done_db (λ k r h. cc)

run_frozen_example :
    (reversal_of 20 (run payment reversed_db) ≡ some (80, reversal))
    × (lookup 70 (run payment reversed_db).billing_records ≡ some fee)
run_frozen_example = run_frozen 70 fee (80, reversal) payment reversed_db refl refl

run-IsLater_example :
    (b : BillingRecord) × (lookup 70 (run payment done_db).billing_records ≡ some b) × IsLater fee b
run-IsLater_example = run-IsLater 70 fee payment done_db refl

run-IsNumbered_example : IsNumbered 20 (run weighed start)
run-IsNumbered_example = run-IsNumbered 20 weighed start refl

run_append_only_example :
    ((r : WeighingRecord)
      → lookup 80 reversed_db.records ≡ some r
      → lookup 80 (run payment reversed_db).records ≡ some r)
    × ((r : WeighingReversal)
        → lookup 80 reversed_db.reversals ≡ some r
        → lookup 80 (run payment reversed_db).reversals ≡ some r)
    × ((r : AuditLog)
        → lookup 80 reversed_db.audit_logs ≡ some r
        → lookup 80 (run payment reversed_db).audit_logs ≡ some r)
run_append_only_example = run_append_only 80 payment reversed_db

run-IsInFleet_example : IsInFleet 1 truck (run payment weighed_db)
run-IsInFleet_example =
    run-IsInFleet 1 truck payment weighed_db
      (omega arith, record { row = truck; stands = refl; plate = refl; live = refl })
