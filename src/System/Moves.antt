-- ===== src/System/Moves.antt =====
-- What one request may do to one task: a relation that abstracts the service's methods.
use timber_ops.Prelude.{◌≡◌, true, Option, some}
use timber_ops.Domain.Enums.{WeighingStatus, WeightResult}
use timber_ops.Domain.Decimal.{Tons}
use timber_ops.Domain.Weighing.{WeightCalculation}
use timber_ops.Domain.Weighing.Outcome.{IsAssessment}
use timber_ops.Store.Rows.{Uuid, Time, WeighingTask}
use timber_ops.Weighing.Inputs.{DeleteEntityInput}
use timber_ops.Weighing.Readings.{with_tare, with_status, with_gross}
use timber_ops.Weighing.Lifecycle.{with_completion, with_deletion, is_deletable, is_cancellable}

pub data Move (now : Time) (t t' : WeighingTask) : Type 0 where
  tare : (w : Tons) → t.status ≡ WeighingStatus.wait_tare → t' ≡ with_tare now w t → Move now t t'
  prepare :
      t.status ≡ WeighingStatus.tare_completed
      → t' ≡ with_status WeighingStatus.wait_gross t
      → Move now t t'
  gross :
      (tare : Tons) (c : WeightCalculation)
      → t.status ≡ WeighingStatus.wait_gross
      → t.tare_weight_tons ≡ some tare
      → IsAssessment tare t.allowed_gross_weight_tons c
      → t' ≡ with_gross now c t
      → Move now t t'
  complete :
      t.status ≡ WeighingStatus.gross_completed
      → t.weight_result ≡ WeightResult.normal
      → t' ≡ with_completion now t
      → Move now t t'
  cancel :
      is_cancellable t.status ≡ true → t' ≡ with_status WeighingStatus.cancelled t → Move now t t'
  delete :
      (op : Option Uuid) (input : DeleteEntityInput)
      → is_deletable t.status ≡ true
      → t' ≡ with_deletion now op input t
      → Move now t t'

-- The lifecycle that docs/business-flow.md draws, with the loop for an overweight result.
pub data Transition : WeighingStatus → WeighingStatus → Type 0 where
  tared : Transition WeighingStatus.wait_tare WeighingStatus.tare_completed
  prepared : Transition WeighingStatus.tare_completed WeighingStatus.wait_gross
  overweight : Transition WeighingStatus.wait_gross WeighingStatus.wait_gross
  weighed : Transition WeighingStatus.wait_gross WeighingStatus.gross_completed
  completed : Transition WeighingStatus.gross_completed WeighingStatus.completed
  cancelled : (s : WeighingStatus) → is_cancellable s ≡ true → Transition s WeighingStatus.cancelled
  -- a deletion leaves the status as it is
  kept : (s : WeighingStatus) → is_deletable s ≡ true → Transition s s
