-- ===== src/Tests/Races.antt =====
-- The theorems on queries and on races, applied to the small database.
use timber_ops.Prelude.{◌≡◌, refl, some, none, true, List, all}
use timber_ops.Domain.Enums.{PaymentStatus}
use timber_ops.Domain.Errors.{ok}
use timber_ops.Store.Rows.{Uuid, BillingRecord, WeighingReversal}
use timber_ops.Store.Db.{Db}
use timber_ops.Billing.Fees.{billing_of}
use timber_ops.Billing.Payments.{reversal_of, payment_written, mark_paid}
use timber_ops.Billing.Queries
use timber_ops.Billing.Queries.{
  BillingFilter, BillingRecordListItem, fits_dates, list_records_dates,
}
use timber_ops.Weighing.Tasks.{get_task_for_update}
use timber_ops.Store.Session.{flush}
use timber_ops.Weighing.Queries.{list_records}
use timber_ops.Reversal.{is_paid, reverse}
use timber_ops.Reversal.Effects.{reversal_written}
use timber_ops.Reversal.PaymentRace.{reverse_past_payment}
use timber_ops.Tests.Fixtures.{env_at, undo_input, done_task, fee, reversal, done_db}

abbrev january : BillingFilter
january = record {
  start_date = some 719163;
  end_date = some 719193;
  vehicle_id = none;
  customer_id = none;
  payment_status = some PaymentStatus.unpaid;
}

list_records_dates_example :
    (xs : List BillingRecordListItem) × (Queries.list_records january done_db ≡ ok xs)
    × (all (fits_dates january) xs ≡ true)
list_records_dates_example = list_records_dates january done_db refl refl

abbrev paid_fee : BillingRecord
paid_fee = record fee { payment_status = PaymentStatus.paid }

abbrev paid_db : Db
paid_db = payment_written (env_at 8) 70 PaymentStatus.paid "BILLING_PAID" 2 fee done_db

abbrev late_reversal : Uuid × WeighingReversal
late_reversal = (90, record reversal { created_at = 9 })

abbrev raced_db : Db
raced_db =
    reversal_written (env_at 9) 20 undo_input 2 (λ _. paid_db) done_db late_reversal done_db
      done_task paid_db

payment_returns : mark_paid (env_at 8) 70 2 done_db ≡ ok (paid_fee, paid_db)
unfolding mark_paid flush
payment_returns = refl

raced_returns :
    reverse (env_at 9) 20 undo_input 2 (λ _. paid_db) done_db ≡ ok (late_reversal, raced_db)
unfolding reverse get_task_for_update flush
raced_returns = refl

reverse_past_payment_example :
    (reversal_of 20 raced_db ≡ some late_reversal) × (is_paid (billing_of 20 raced_db) ≡ true)
reverse_past_payment_example =
    reverse_past_payment (env_at 9) (env_at 8) 20 70 undo_input 2 2 done_db fee paid_fee paid_db
      late_reversal raced_db refl refl refl payment_returns raced_returns
