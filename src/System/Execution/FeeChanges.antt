-- ===== src/System/Execution/FeeChanges.antt =====
-- The calls on fees and reversals, as changes.
use timber_ops.Prelude.{◌≡◌, refl, inl, inr, String}
use timber_ops.Domain.Enums.{PaymentStatus}
use timber_ops.Domain.Errors.{ok}
use timber_ops.Store.Rows.{Uuid, BillingRecord, WeighingReversal}
use timber_ops.Store.Db.{Db, Env}
use timber_ops.Billing.Payments.{transition_payment_status}
use timber_ops.Billing.Effects.{transition-eq-ok}
use timber_ops.Reversal.{WeighingReversalCreate, reverse}
use timber_ops.Reversal.Effects.{existing, created, recovered, reverse-eq-ok}
use timber_ops.System.Changes.{Change, unchanged, fee_settled, task_reversed}

module _ (env : Env) (id op : Uuid) (db db' : Db) where
  pub transition-Change :
      (target : PaymentStatus) (action : String) (r : BillingRecord)
      → transition_payment_status env id target action op db ≡ ok (r, db')
      → Change env db db'
  transition-Change target action r h =
      let (b, found, free, how) = transition-eq-ok env id target action op db r db' h in
      elim how [
        | inl (_, _, nothing) ↦ unchanged nothing
        | inr (unpaid, _, written, _) ↦ fee_settled id b target _ _ found free unpaid written
      ]

  pub reverse-Change :
      (input : WeighingReversalCreate) (r : Uuid × WeighingReversal)
      → reverse env id input op (λ d. d) db ≡ ok (r, db')
      → Change env db db'
  reverse-Change input r h =
      let (t, active, done, how) = reverse-eq-ok env id input op (λ d. d) db r db' h in
      elim how [
        | existing _ nothing ↦ unchanged nothing
        | created free unpaid _ written _ ↦
            task_reversed id t _ _ _ active.found done free unpaid refl written
        | recovered free _ found _ ↦ cc (free, found)
      ]
