-- ===== src/Reversal/PaymentRace.antt =====
-- A payment between the reads of `reverse` and its flush: `reverse` locks the task and not the fee
-- record, and `mark_paid` locks the fee record and not the task.
use timber_ops.Prelude.{
  ◌≡◌, ap, ◌∙◌, subst, inl, inr, Bool, true, ◌==◌, nat_eq, nat_beq_iff, List, [], ◌∷◌, some, none,
  first, lookup, first_where-update_self, arith,
}
use timber_ops.Domain.Enums.{PaymentStatus, payment_status_eq}
use timber_ops.Domain.Errors.{ok}
use timber_ops.Store.Rows.{Uuid, WeighingTask, BillingRecord, WeighingReversal}
use timber_ops.Store.Db.{Db, Env}
use timber_ops.Billing.Fees.{billing_of}
use timber_ops.Billing.Payments.{reversal_of, mark_paid}
use timber_ops.Billing.Effects.{transition-eq-ok}
use timber_ops.Reversal.{WeighingReversalCreate, is_paid, reverse}
use timber_ops.Reversal.Effects.{Outcome, existing, created, recovered, reverse-eq-ok}

first_holds : {A : Type 0} (q : A → Bool) (y : A) (xs : List A) → first q xs ≡ some y → q y ≡ true
first_holds q y [] h = absurd cc
first_holds q y (x ∷ xs) h = ground (arith, first_holds q y xs)

-- what `mark_paid` leaves of the fee record that it found
paid_after :
    (env : Env) (id k : Uuid) (op : Uuid) (db : Db) (b b' : BillingRecord) (w : Db)
    → billing_of id db ≡ some (k, b)
    → lookup k db.billing_records ≡ some b
    → b.payment_status ≡ PaymentStatus.unpaid
    → mark_paid env k op db ≡ ok (b', w)
    → (reversal_of id db ≡ none) × (is_paid (billing_of id w) ≡ true)
unfolding mark_paid
paid_after env id k op db b b' w first_ here unpaid h =
    let (row, found, free, way) =
      transition-eq-ok env k PaymentStatus.paid "BILLING_PAID" op db b' w h in
    let same : row ≡ b = ground arith in
    let mine : b.weighing_task_id ≡ id =
      (nat_beq_iff b.weighing_task_id id).0 (first_holds _ (k, b) db.billing_records first_) in
    (
      subst (λ j. reversal_of j db ≡ none) (ap (λ x. x.weighing_task_id) same ∙ mine) free,
      elim way [
        | inl (there, _, _) ↦ absurd (ground (arith, ap (λ x. x.payment_status) same))
        | inr (_, _, written, _) ↦
            ap (λ d. is_paid (billing_of id d)) written
            ∙ ap is_paid (
                first_where-update_self (λ x. x.weighing_task_id == id) k
                  (record row { payment_status = PaymentStatus.paid }) b db.billing_records first_
                  (ground (arith, mine, ap (λ x. x.weighing_task_id) same)) here)
      ],
    )

-- If the unpaid fee of a task is paid by another session after `reverse` has read it as unpaid, and
-- `reverse` returns, then the task has that reversal and its fee is paid.
pub reverse_past_payment :
    (env env' : Env) (id k : Uuid) (input : WeighingReversalCreate) (op op' : Uuid) (db : Db)
    (b b' : BillingRecord) (w : Db) (r : Uuid × WeighingReversal) (db' : Db)
    → billing_of id db ≡ some (k, b)
    → lookup k db.billing_records ≡ some b
    → b.payment_status ≡ PaymentStatus.unpaid
    → mark_paid env' k op' db ≡ ok (b', w)
    → reverse env id input op (λ _. w) db ≡ ok (r, db')
    → (reversal_of id db' ≡ some r) × (is_paid (billing_of id db') ≡ true)
reverse_past_payment env env' id k input op op' db b b' w r db' first_ here unpaid pays h =
    let (free, paid) = paid_after env' id k op' db b b' w first_ here unpaid pays in
    let (task, _, _, way) = reverse-eq-ok env id input op (λ _. w) db r db' h in
    by_way task free paid way
  where
    by_way :
        (task : WeighingTask)
        → reversal_of id db ≡ none
        → is_paid (billing_of id w) ≡ true
        → Outcome env id input op (λ _. w) db r db' task
        → (reversal_of id db' ≡ some r) × (is_paid (billing_of id db') ≡ true)
    by_way task free paid (existing e _) = absurd cc
    by_way task free paid (created _ _ found e _) =
        (found, ap (λ d. is_paid (billing_of id d)) e ∙ paid)
    by_way task free paid (recovered _ _ found e) =
        (ap (reversal_of id) e ∙ found, ap (λ d. is_paid (billing_of id d)) e ∙ paid)
