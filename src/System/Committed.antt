-- ===== src/System/Committed.antt =====
-- The database between two requests satisfies its constraints.
use timber_ops.Prelude.{◌≡◌, ◌⊎◌, inl, inr, some, none, String, Option}
use timber_ops.Domain.Enums.{PaymentStatus, WeightType}
use timber_ops.Domain.Decimal.{Decimal}
use timber_ops.Domain.Errors.{Result, ok}
use timber_ops.Store.Rows.{Uuid, WeighingTask, BillingRecord, WeighingReversal}
use timber_ops.Store.Db.{Db, Env}
use timber_ops.Store.Session.{IsCommitted}
use timber_ops.Billing.Payments.{mark_paid, waive, transition_payment_status}
use timber_ops.Billing.Effects.{transition-eq-ok}
use timber_ops.Weighing.Readings.{record_gross_like}
use timber_ops.Weighing.Effects.ReadingCalls.{
  record_tare-eq-ok, record_gross-eq-ok, record_reweigh-eq-ok, record_gross_like-eq-ok,
}
use timber_ops.Weighing.Effects.LifecycleCalls.{
  create_task-eq-ok, delete_task-eq-ok, cancel_task-eq-ok, prepare_for_gross-eq-ok,
  complete_task-eq-ok,
}
use timber_ops.Reversal.{WeighingReversalCreate, reverse}
use timber_ops.Reversal.Effects.{Outcome, existing, created, recovered, reverse-eq-ok}
use timber_ops.Weighing.Readings.{prepare_for_gross}
use timber_ops.Master.Effects.{
  create_vehicle-eq-ok, update_vehicle-eq-ok, delete_vehicle-eq-ok, create_customer-eq-ok,
  update_customer-eq-ok, delete_customer-eq-ok,
}
use timber_ops.System.Requests.{Request, state, execute}
use timber_ops.System.Execution.Dispatch.{state-eq-ok}

-- Nothing was written, or what was written was checked.
abbrev Writes : Db → Db → Type 0
Writes db db' = (db' ≡ db) ⊎ IsCommitted db'

from_state :
    {A : Type 0} (db db' : Db) (m : Result (A × Db))
    → ((a : A) → m ≡ ok (a, db') → Writes db db')
    → state m ≡ ok db'
    → Writes db db'
from_state db db' m writes h = let (a, e) = state-eq-ok m db' h in writes a e

module _ (env : Env) (id : Uuid) (db db' : Db) where
  gross_like-Writes :
      (op : Option Uuid) (task r : WeighingTask) (kind : WeightType) (weight : Decimal)
      (remark : Option String)
      → record_gross_like env id task kind weight op remark db ≡ ok (r, db')
      → Writes db db'
  gross_like-Writes op task r kind weight remark h =
      let (_, _, _, _, _, _, good) =
        record_gross_like-eq-ok env id op db r db' task kind weight remark h in
      inr good

  prepare-Writes : (r : WeighingTask) → prepare_for_gross env id db ≡ ok (r, db') → Writes db db'
  prepare-Writes r h =
      let (_, _, way) = prepare_for_gross-eq-ok env id none db db' r h in
      elim way [ inl (_, _, same) ↦ inl same | inr (_, _, _, good) ↦ inr good ]

  transition-Writes :
      (target : PaymentStatus) (action : String) (op : Uuid) (r : BillingRecord)
      → transition_payment_status env id target action op db ≡ ok (r, db')
      → Writes db db'
  transition-Writes target action op r h =
      let (_, _, _, way) = transition-eq-ok env id target action op db r db' h in
      elim way [ inl (_, _, same) ↦ inl same | inr (_, _, _, good) ↦ inr good ]

  reverse-Writes :
      (input : WeighingReversalCreate) (op : Uuid) (r : Uuid × WeighingReversal)
      → reverse env id input op (λ d. d) db ≡ ok (r, db')
      → Writes db db'
  reverse-Writes input op r h =
      let (task, _, _, way) = reverse-eq-ok env id input op (λ d. d) db r db' h in by_way task way
    where
      by_way :
          (task : WeighingTask) → Outcome env id input op (λ d. d) db r db' task → Writes db db'
      by_way task (existing _ same) = inl same
      by_way task (created _ _ _ _ good) = inr good
      by_way task (recovered _ _ _ same) = inl same

-- A request that returns has written nothing, or a database that its constraints accept.
pub execute-Writes :
    (env : Env) (r : Request) (db db' : Db) → execute env r db ≡ ok db' → Writes db db'
unfolding execute mark_paid waive
execute-Writes env (Request.post_vehicle input) db db' =
    from_state db db' _
      (λ a h. let (_, _, _, good) = create_vehicle-eq-ok env db db' input a h in inr good)
execute-Writes env (Request.patch_vehicle id input) db db' =
    from_state db db' _
      (λ a h. let (_, _, _, _, _, good) = update_vehicle-eq-ok env db db' id input a h in inr good)
execute-Writes env (Request.drop_vehicle id input op) db db' = λ h.
    let (_, _, _, _, _, good) = delete_vehicle-eq-ok env db db' id input (some op) h in inr good
execute-Writes env (Request.post_customer input) db db' =
    from_state db db' _
      (λ a h. let (_, _, good) = create_customer-eq-ok env db db' input a h in inr good)
execute-Writes env (Request.patch_customer id input) db db' =
    from_state db db' _
      (λ a h. let (_, _, _, _, _, good) = update_customer-eq-ok env db db' id input a h in inr good)
execute-Writes env (Request.drop_customer id input op) db db' = λ h.
    let (_, _, _, _, _, good) = delete_customer-eq-ok env db db' id input (some op) h in inr good
execute-Writes env (Request.post_task input op) db db' = from_state db db' _ (λ a h.
    let (_, _, _, _, _, _, _, _, _, good) = create_task-eq-ok env 0 (some op) db db' input a h in
    inr good)
execute-Writes env (Request.tare id input op) db db' = from_state db db' _ (λ a h.
    let (_, _, _, _, _, _, _, good) = record_tare-eq-ok env id (some op) db a db' input h in
    inr good)
execute-Writes env (Request.wait_gross id) db db' =
    from_state db db' _ (prepare-Writes env id db db')
execute-Writes env (Request.gross id input op) db db' = from_state db db' _ (λ a h.
    let (task, _, _, _, _, like) = record_gross-eq-ok env id (some op) db a db' input h in
    gross_like-Writes env id db db' (some op) task a WeightType.gross input.weight_tons input.remark
      like)
execute-Writes env (Request.reweigh id input op) db db' = from_state db db' _ (λ a h.
    let (task, _, _, _, _, like) = record_reweigh-eq-ok env id (some op) db a db' input h in
    gross_like-Writes env id db db' (some op) task a WeightType.reweigh input.weight_tons
      (some input.remark) like)
execute-Writes env (Request.complete id op) db db' = from_state db db' _ (λ a h.
    let (_, _, _, _, _, _, _, _, good) = complete_task-eq-ok env id (some op) db db' a h in
    inr good)
execute-Writes env (Request.drop_task id input op) db db' =
    λ h. let (_, _, _, _, good) = delete_task-eq-ok env id (some op) db db' input h in inr good
execute-Writes env (Request.cancel id input op) db db' = from_state db db' _ (λ a h.
    let (_, _, _, _, _, good) = cancel_task-eq-ok env id (some op) db db' input a h in inr good)
execute-Writes env (Request.pay id op) db db' =
    from_state db db' _ (transition-Writes env id db db' PaymentStatus.paid "BILLING_PAID" op)
execute-Writes env (Request.forgive id op) db db' =
    from_state db db' _ (transition-Writes env id db db' PaymentStatus.waived "BILLING_WAIVED" op)
execute-Writes env (Request.undo id input op) db db' =
    from_state db db' _ (reverse-Writes env id db db' input op)
