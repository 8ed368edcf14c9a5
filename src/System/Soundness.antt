-- ===== src/System/Soundness.antt =====
-- What each status says of a task's weights, in every database that requests reach.
use timber_ops.Prelude.{
  ◌≡◌, ◌≢◌, refl, ◌⊎◌, inl, inr, if◌then◌else◌, ◌==◌, true, Option, some, none, Every, subst, arith,
}
use timber_ops.Domain.Enums.{WeighingStatus, WeightResult, weight_result_eq}
use timber_ops.Domain.Decimal.{Tons}
use timber_ops.Domain.Weighing.{WeightCalculation, zero_tons}
use timber_ops.Domain.Weighing.Outcome.{IsAssessment}
use timber_ops.Store.Rows.{Time, WeighingTask}
use timber_ops.Store.Db.{Db}
use timber_ops.Weighing.Readings.{with_tare, with_gross}
use timber_ops.Weighing.Lifecycle.{is_cancellable}
use timber_ops.System.Moves.{Move, tare, prepare, gross, complete, cancel, delete}

-- The weights of a task and their evaluation.
pub record Weights : Type 0 where
  pub tare : Option Tons
  pub gross : Option Tons
  pub net : Option Tons
  pub allowed : Tons
  pub excess : Tons
  pub result : WeightResult

abbrev pub weights : WeighingTask → Weights
weights t = record {
  tare = t.tare_weight_tons;
  gross = t.gross_weight_tons;
  net = t.net_weight_tons;
  allowed = t.allowed_gross_weight_tons;
  excess = t.overweight_tons;
  result = t.weight_result;
}

-- No gross weight yet.
pub record IsUnweighed (w : Weights) : Type 0 where
  pub pending : w.result ≡ WeightResult.pending
  pub no_gross : w.gross ≡ none
  pub no_net : w.net ≡ none
  pub no_excess : w.excess ≡ zero_tons

-- The summary is an assessment of the tare and the allowed weight.
pub record IsWeighed (w : Weights) : Type 0 where
  pub tare : Tons
  pub latest : WeightCalculation
  pub tared : w.tare ≡ some tare
  pub gross : w.gross ≡ some latest.gross_weight_tons
  pub net : w.net ≡ some latest.net_weight_tons
  pub excess : w.excess ≡ latest.overweight_tons
  pub verdict : w.result ≡ latest.result
  pub assessed : IsAssessment tare w.allowed latest

-- What a status says of the weights and of the time of completion.
abbrev pub Shape : WeighingStatus → Weights → Option Time → Type 0
Shape WeighingStatus.wait_tare w c = (w.tare ≡ none) × IsUnweighed w × (c ≡ none)
Shape WeighingStatus.tare_completed w c = (w.tare ≢ none) × IsUnweighed w × (c ≡ none)
Shape WeighingStatus.wait_gross w c =
    (w.tare ≢ none)
    × (IsUnweighed w ⊎ IsWeighed w × (w.result ≡ WeightResult.overweight))
    × (c ≡ none)
Shape WeighingStatus.gross_completed w c =
    IsWeighed w × (w.result ≡ WeightResult.normal) × (c ≡ none)
Shape WeighingStatus.completed w c = IsWeighed w × (w.result ≡ WeightResult.normal) × (c ≢ none)
Shape WeighingStatus.cancelled w c = c ≡ none

abbrev pub IsSound : WeighingTask → Type 0
IsSound t = Shape t.status (weights t) t.completed_at

Shape-at :
    (t : WeighingTask) (s : WeighingStatus)
    → t.status ≡ s
    → IsSound t
    → Shape s (weights t) t.completed_at
Shape-at t s e h = subst (λ x. Shape x (weights t) t.completed_at) e h

open_of_cancellable :
    (s : WeighingStatus) (w : Weights) (c : Option Time)
    → is_cancellable s ≡ true
    → Shape s w c
    → c ≡ none
open_of_cancellable WeighingStatus.wait_tare w c e h = h.2
open_of_cancellable WeighingStatus.tare_completed w c e h = h.2
open_of_cancellable WeighingStatus.wait_gross w c e h = h.2
open_of_cancellable WeighingStatus.gross_completed w c e h = h.2
open_of_cancellable WeighingStatus.completed w c e h = cc
open_of_cancellable WeighingStatus.cancelled w c e h = h

-- the new status after a gross reading goes with its verdict
gross-Shape :
    (w : Weights) (c : Option Time)
    → IsWeighed w
    → w.result ≢ WeightResult.pending
    → c ≡ none
    → Shape
        (if w.result == WeightResult.normal
          then WeighingStatus.gross_completed
          else WeighingStatus.wait_gross)
        w
        c
gross-Shape w c good judged open_task = by_result w.result refl
  where
    tared : w.tare ≢ none
    tared e = cc (good.tared, e)

    by_result :
        (r : WeightResult)
        → w.result ≡ r
        → Shape
            (if r == WeightResult.normal
              then WeighingStatus.gross_completed
              else WeighingStatus.wait_gross)
            w
            c
    by_result WeightResult.pending e = absurd (judged e)
    by_result WeightResult.normal e = (good, e, open_task)
    by_result WeightResult.overweight e = (tared, inr (good, e), open_task)

gross-IsSound :
    (now : Time) (t : WeighingTask) (w : Tons) (c : WeightCalculation)
    → t.completed_at ≡ none
    → t.tare_weight_tons ≡ some w
    → IsAssessment w t.allowed_gross_weight_tons c
    → IsSound (with_gross now c t)
gross-IsSound now t w c open_task e a =
    gross-Shape (weights (with_gross now c t)) t.completed_at
      (record {
        tare = w;
        latest = c;
        tared = e;
        gross = refl;
        net = refl;
        excess = refl;
        verdict = refl;
        assessed = a;
      })
      (λ p. ground (arith, a.verdict)) open_task

-- One move keeps a task sound.
pub Move-IsSound : (now : Time) (t t' : WeighingTask) → Move now t t' → IsSound t → IsSound t'
Move-IsSound now t t' (tare w e d) h =
    let (_, u, o) = Shape-at t WeighingStatus.wait_tare e h in
    let still : IsUnweighed (weights (with_tare now w t)) = record {
      pending = u.pending;
      no_gross = u.no_gross;
      no_net = u.no_net;
      no_excess = u.no_excess;
    } in
    rw d ((λ p. cc), still, o)
Move-IsSound now t t' (prepare e d) h =
    let (w, u, o) = Shape-at t WeighingStatus.tare_completed e h in rw d (w, inl u, o)
Move-IsSound now t t' (gross w c e te a d) h =
    let (_, _, o) = Shape-at t WeighingStatus.wait_gross e h in
    rw d (gross-IsSound now t w c o te a)
Move-IsSound now t t' (complete e n d) h =
    let (w, _, _) = Shape-at t WeighingStatus.gross_completed e h in rw d (w, n, (λ p. cc))
Move-IsSound now t t' (cancel e d) h =
    rw d (open_of_cancellable t.status (weights t) t.completed_at e h)
Move-IsSound now t t' (delete op input e d) h = rw d h

abbrev pub AllSound : Db → Type 0
AllSound db = Every (λ _ t. IsSound t) db.tasks
