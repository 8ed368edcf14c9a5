-- ===== src/Domain/Weighing/Outcome.antt =====
-- What `calculate_weight` returns, and when it raises.
use timber_ops.Prelude.{◌<◌, ◌≡◌, ◌⊎◌, inl, inr, refl, subst, arith, Bool-cases, if◌then◌else◌}
use timber_ops.Prelude.Int.{pos, ◌-ℤ◌, ◌≤ℤ◌, ◌<ℤ◌, leb_ℤ}
use timber_ops.Domain.Enums.{WeightResult}
use timber_ops.Domain.Errors.{ok, err, validation, Result-cases}
use timber_ops.Domain.Decimal.{
  Decimal, Tons, magnitude, precision_limit, quantize_tons, of_tons, quantize_tons-of_tons,
  eq_of_quantize_tons-of_tons,
}
use timber_ops.Domain.Decimal.Rounding.{magnitude-quantize_tons}
use timber_ops.Domain.Weighing.{WeightCalculation, calculate_weight, zero_tons, max_tons}

-- The calculation over weights that are already rounded.
abbrev pub assess : Tons → Tons → Tons → WeightCalculation
assess t g a = record {
  gross_weight_tons = g;
  net_weight_tons = g -ℤ t;
  overweight_tons = max_tons (g -ℤ a) zero_tons;
  result = if leb_ℤ g a then WeightResult.normal else WeightResult.overweight;
}

-- What a calculation says of the tare and the allowed weight that it was made from.
pub record IsAssessment (tare allowed : Tons) (r : WeightCalculation) : Type 0 where
  pub tare_positive : zero_tons <ℤ tare
  pub allowed_positive : zero_tons <ℤ allowed
  pub gross_above : tare <ℤ r.gross_weight_tons
  pub net_positive : zero_tons <ℤ r.net_weight_tons
  pub net : r.net_weight_tons ≡ r.gross_weight_tons -ℤ tare
  pub verdict :
      (r.result ≡ WeightResult.normal)
        × (r.gross_weight_tons ≤ℤ allowed)
        × (r.overweight_tons ≡ zero_tons)
      ⊎ (r.result ≡ WeightResult.overweight)
        × (allowed <ℤ r.gross_weight_tons)
        × (zero_tons <ℤ r.overweight_tons)
        × (r.overweight_tons ≡ r.gross_weight_tons -ℤ allowed)

assess-IsAssessment :
    (t g a : Tons) → zero_tons <ℤ t → zero_tons <ℤ a → t <ℤ g → IsAssessment t a (assess t g a)
unfolding ◌-ℤ◌
assess-IsAssessment (pos t) (pos g) (pos a) tp ap tg = ground arith
assess-IsAssessment t g a tp ap tg = ground arith

difference_fits :
    (g t : Tons)
    → zero_tons <ℤ t
    → t <ℤ g
    → magnitude g < precision_limit
    → magnitude (g -ℤ t) < precision_limit
unfolding ◌-ℤ◌
difference_fits g t tp tg gr = ground arith

excess_fits :
    (g a : Tons)
    → zero_tons <ℤ a
    → zero_tons <ℤ g
    → magnitude g < precision_limit
    → magnitude (max_tons (g -ℤ a) zero_tons) < precision_limit
unfolding ◌-ℤ◌
excess_fits g a ap gp gr = ground arith

module _ (tw gw aw : Decimal) (t g a : Tons) (te : quantize_tons tw ≡ ok t)
    (ge : quantize_tons gw ≡ ok g) (ae : quantize_tons aw ≡ ok a) where
  -- Weights whose rounded values pass the three tests give the assessment of the rounded values.
  pub calculate_weight_complete :
      zero_tons <ℤ t
      → zero_tons <ℤ a
      → t <ℤ g
      → (calculate_weight tw gw aw ≡ ok (assess t g a)) × IsAssessment t a (assess t g a)
  unfolding calculate_weight
  calculate_weight_complete tp ap tg =
      let fits = magnitude-quantize_tons gw g ge in
      let net = quantize_tons-of_tons (g -ℤ t) (difference_fits g t tp tg fits) in
      let over =
        quantize_tons-of_tons (max_tons (g -ℤ a) zero_tons)
          (excess_fits g a ap (omega arith) fits) in
      (ground (arith, net, over), assess-IsAssessment t g a tp ap tg)

  -- Any other weights are refused as a validation error.
  pub calculate_weight_refuses :
      (t ≤ℤ zero_tons) ⊎ (a ≤ℤ zero_tons) ⊎ (g ≤ℤ t) → calculate_weight tw gw aw ≡ err validation
  unfolding calculate_weight
  calculate_weight_refuses bad = ground arith

  calculate_weight_inverts :
      (r : WeightCalculation)
      → calculate_weight tw gw aw ≡ ok r
      → (r.gross_weight_tons ≡ g) × IsAssessment t a r
  calculate_weight_inverts r h = elim (Bool-cases (leb_ℤ t zero_tons)) [
    | inl bad ↦ cc (h, calculate_weight_refuses (inl (ground arith)))
    | inr tp ↦ elim (Bool-cases (leb_ℤ a zero_tons)) [
      | inl bad ↦ cc (h, calculate_weight_refuses (inr (inl (ground arith))))
      | inr ap ↦ elim (Bool-cases (leb_ℤ g t)) [
        | inl bad ↦ cc (h, calculate_weight_refuses (inr (inr (ground arith))))
        | inr tg ↦
            let (returns, good) =
              calculate_weight_complete (ground arith) (ground arith) (ground arith) in
            let same : assess t g a ≡ r = cc (h, returns) in rw (← same) (refl, good)
      ]
    ]
  ]

-- Of weights that can be rounded, a calculation either returns, when the rounded tare and allowed
-- weight are positive and the rounded gross weight is above the tare: then the net weight is the
-- gross weight less the tare, and the result is normal without excess up to the allowed weight, and
-- above it overweight by the difference. Or one of the three fails, and it raises a validation error.
pub calculate_weight_decides :
    (tw gw aw : Decimal) (t g a : Tons)
    → quantize_tons tw ≡ ok t
    → quantize_tons gw ≡ ok g
    → quantize_tons aw ≡ ok a
    → (calculate_weight tw gw aw ≡ ok (assess t g a)) × IsAssessment t a (assess t g a)
      ⊎ ((t ≤ℤ zero_tons) ⊎ (a ≤ℤ zero_tons) ⊎ (g ≤ℤ t))
        × (calculate_weight tw gw aw ≡ err validation)
calculate_weight_decides tw gw aw t g a te ge ae = elim (Bool-cases (leb_ℤ t zero_tons)) [
  | inl bad ↦
      let why = inl (ground arith) in
      inr (why, calculate_weight_refuses tw gw aw t g a te ge ae why)
  | inr tp ↦ elim (Bool-cases (leb_ℤ a zero_tons)) [
    | inl bad ↦
        let why = inr (inl (ground arith)) in
        inr (why, calculate_weight_refuses tw gw aw t g a te ge ae why)
    | inr ap ↦ elim (Bool-cases (leb_ℤ g t)) [
      | inl bad ↦
          let why = inr (inr (ground arith)) in
          inr (why, calculate_weight_refuses tw gw aw t g a te ge ae why)
      | inr tg ↦ inl (
          calculate_weight_complete tw gw aw t g a te ge ae (ground arith) (ground arith)
            (ground arith))
    ]
  ]
]

pub calculate_weight_sound :
    (tw gw aw : Decimal) (r : WeightCalculation)
    → calculate_weight tw gw aw ≡ ok r
    → (t a : Tons) × (quantize_tons tw ≡ ok t)
      × (quantize_tons gw ≡ ok r.gross_weight_tons)
      × (quantize_tons aw ≡ ok a)
      × IsAssessment t a r
unfolding calculate_weight
calculate_weight_sound tw gw aw r h = elim (Result-cases (quantize_tons tw)) [
  | inr (e, te) ↦ cc (h, te)
  | inl (t, te) ↦ elim (Result-cases (quantize_tons gw)) [
    | inr (e, ge) ↦ cc (h, te, ge)
    | inl (g, ge) ↦ elim (Result-cases (quantize_tons aw)) [
      | inr (e, ae) ↦ cc (h, te, ge, ae)
      | inl (a, ae) ↦
          let (size, good) = calculate_weight_inverts tw gw aw t g a te ge ae r h in
          (t, a, te, rw size ge, ae, good)
    ]
  ]
]

-- The calculation over a stored tare and a stored allowed weight.
pub calculate_weight-IsAssessment :
    (tare allowed : Tons) (weight : Decimal) (r : WeightCalculation)
    → calculate_weight (of_tons tare) weight (of_tons allowed) ≡ ok r
    → IsAssessment tare allowed r
calculate_weight-IsAssessment tare allowed weight r h =
    let (t, a, te, _, ae, good) =
      calculate_weight_sound (of_tons tare) weight (of_tons allowed) r h in
    let te' = eq_of_quantize_tons-of_tons tare t te in
    let ae' = eq_of_quantize_tons-of_tons allowed a ae in
    subst (λ x. IsAssessment x allowed r) te' (subst (λ y. IsAssessment t y r) ae' good)
