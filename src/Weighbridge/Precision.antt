-- ===== src/Weighbridge/Precision.antt =====
-- How a configured weight is rounded by the simulator.
use native.Mathlib.Nat.{div-add-mod', mod-lt}
use timber_ops.Prelude.{
  ℕ, ◌+◌, ◌*◌, ◌/◌, ◌%◌, ◌^◌, ◌≤◌, ◌<◌, ◌≡◌, ◌↔◌, ◌⊎◌, inl, inr, true, false, ltb, leb, Bool-cases,
  refl, ap, sym, subst, ◌∙◌, if◌then◌else◌, arith,
}
use timber_ops.Prelude.Int.{pos, leb_ℤ, pos_part}
use timber_ops.Domain.Decimal.{Decimal, Tons, precision_limit}
use timber_ops.Domain.Decimal.Rounding.{pow_pos}
use timber_ops.Domain.Errors.{ok}
use timber_ops.Weighbridge.Device.{Outcome, returns}
use timber_ops.Weighbridge.Simulator.{Weight, is_above_limit, round_half_even, quantize, observe}
use timber_ops.Weighbridge.Adapter.{is_refused}

-- rounding by quotient and rest
abbrev rounded : ℕ → ℕ → ℕ → ℕ
rounded d q r = if ltb (2 * r) d then q else if ltb d (2 * r) then q + 1 else q + q % 2

rounded-cases :
    (d q r : ℕ)
    → ((rounded d q r ≡ q) × (2 * r ≤ d))
      ⊎ ((rounded d q r ≡ q + 1) × (d ≤ 2 * r) × ((d < 2 * r) ⊎ (1 ≤ q)))
rounded-cases d q r = elim (Bool-cases (ltb (2 * r) d)) [
  | inl low ↦ inl (rw low refl, ground arith)
  | inr at_least ↦ elim (Bool-cases (ltb d (2 * r))) [
    | inl high ↦ inr (rw (at_least, high) refl, ground arith, inl (ground arith))
    | inr tie ↦ elim (Bool-cases (leb (q % 2) 0)) [
      | inl even ↦ inl (rw (at_least, tie) (ground arith), ground arith)
      | inr odd ↦ inr (rw (at_least, tie) (ground arith), ground arith, inr (ground arith))
    ]
  ]
]

rounded_bounds :
    (a d q r : ℕ)
    → q * d + r ≡ a
    → r < d
    → (2 * a ≤ rounded d q r * (2 * d) + d) × (rounded d q r * (2 * d) ≤ 2 * a + d)
rounded_bounds a d q r e below = elim (rounded-cases d q r) [
  | inl (low, l) ↦ rw low (omega arith, omega arith)
  | inr (high, l, _) ↦ rw high (grind arith, grind arith)
]

quotient-le : (a d q r m : ℕ) → q * d + r ≡ a → 0 < d → a ≤ m * d → q ≤ m
quotient-le a d q r m e l h = grind arith

quotient-lt : (a d q r m : ℕ) → q * d + r ≡ a → 0 < r → a ≤ m * d → q + 1 ≤ m
quotient-lt a d q r m e l h = grind arith

rounded_limit : (a d q r m : ℕ) → q * d + r ≡ a → 0 < d → a ≤ m * d → rounded d q r ≤ m
rounded_limit a d q r m e l h = elim (rounded-cases d q r) [
  | inl (low, _) ↦ rw low (quotient-le a d q r m e l h)
  | inr (high, k, _) ↦ rw high (quotient-lt a d q r m e (omega arith) h)
]

quotient_zero : (a d q r : ℕ) → q * d + r ≡ a → 0 < d → 2 * a ≤ d → q ≡ 0
quotient_zero a d q r e l h = grind arith

rounded_zero : (a d q r : ℕ) → q * d + r ≡ a → 0 < d → 2 * a ≤ d → rounded d q r ≡ 0
rounded_zero a d q r e l h =
    let none_ = quotient_zero a d q r e l h in
    let rest : r ≡ a = omega (arith, e, ap (λ n. n * d) none_) in
    elim (rounded-cases d q r) [
      | inl (low, _) ↦ low ∙ none_
      | inr (high, _, inl above) ↦ absurd (omega arith)
      | inr (high, _, inr odd) ↦ absurd (omega arith)
    ]

nothing : (a d n : ℕ) → 2 * a ≤ n * (2 * d) + d → n ≡ 0 → 2 * a ≤ d
nothing a d n h z =
    let h' : 2 * a ≤ 0 * (2 * d) + d = subst (λ m. 2 * a ≤ m * (2 * d) + d) z h in omega arith

-- The nearest number of thousandths, within the limit of a weight.
rounded_weight :
    (c p : ℕ)
    → c * 1000 ≤ 9999999999 * 10 ^ p
    → let n = round_half_even c p in
      let d = 10 ^ p in
      let a = c * 1000 in
      (n ≤ 9999999999) × (2 * a ≤ n * (2 * d) + d) × (n * (2 * d) ≤ 2 * a + d) × (2 * a ≤ d → n ≡ 0)
unfolding round_half_even
rounded_weight c p h =
    let d : ℕ = 10 ^ p in
    let a : ℕ = c * 1000 in
    let e = div-add-mod' a d in
    let l = mod-lt a {m = d} (omega (arith, pow_pos p)) in
    let (low, high) = rounded_bounds a d (a / d) (a % d) e l in
    (
      rounded_limit a d (a / d) (a % d) 9999999999 e (pow_pos p) h,
      low,
      high,
      λ k. rounded_zero a d (a / d) (a % d) e (pow_pos p) k,
    )

quantize_within :
    (w : Decimal)
    → round_half_even (pos_part w.coefficient) w.places ≤ 9999999999
    → quantize w ≡ ok (pos (round_half_even (pos_part w.coefficient) w.places))
unfolding quantize
quantize_within w h =
    let fits : ltb (round_half_even (pos_part w.coefficient) w.places) precision_limit ≡ true =
      ground arith in
    rw fits refl

within_limit :
    (w : Decimal)
    → is_above_limit w ≡ false
    → pos_part w.coefficient * 1000 ≤ 9999999999 * 10 ^ w.places
within_limit w h = ground arith

-- A weight that passes both tests is returned rounded.
observe_passed :
    (w : Decimal)
    → is_refused (Weight.finite w) ≡ false
    → observe (Weight.finite w) ≡ returns (pos (round_half_even (pos_part w.coefficient) w.places))
unfolding observe
observe_passed w h =
    let positive : leb_ℤ w.coefficient (pos 0) ≡ false = ground arith in
    let below : is_above_limit w ≡ false = ground arith in
    let fits = rounded_weight (pos_part w.coefficient) w.places (within_limit w below) in
    rw (positive, below, quantize_within w fits.0) refl

passed : (w : Weight) (t : Tons) → observe w ≡ returns t → is_refused w ≡ false
unfolding observe
passed Weight.not_finite t h = absurd (cc)
passed (Weight.finite w) t h = elim (Bool-cases (leb_ℤ w.coefficient (pos 0))) [
  | inl low ↦ (let h' = rw low at h in cc)
  | inr positive ↦ elim (Bool-cases (is_above_limit w)) [
    | inl high ↦ (let h' = rw (positive, high) at h in cc)
    | inr below ↦ rw (positive, below) refl
  ]
]

-- The simulator returns a weight for whatever the validator of the settings accepts.
pub observe_returns : (w : Weight) → is_refused w ≡ false → (t : Tons) × (observe w ≡ returns t)
observe_returns Weight.not_finite h = absurd (cc)
observe_returns (Weight.finite w) h =
    (pos (round_half_even (pos_part w.coefficient) w.places), observe_passed w h)

returns-inj : (a b : Tons) → ◌≡◌ {A = Outcome Tons} (returns a) (returns b) → a ≡ b
returns-inj a b h = cc

-- A weight that the simulator returns for a configured one lies between 0 and 9999999.999 t, is at
-- most half a thousandth of a ton away from it, and is zero just if that is at most half a
-- thousandth.
pub observe_bounds :
    (w : Decimal) (t : Tons)
    → observe (Weight.finite w) ≡ returns t
    → let n = pos_part t in
      let d = 10 ^ w.places in
      let a = pos_part w.coefficient * 1000 in
      (t ≡ pos n)
      × (n ≤ 9999999999)
      × (2 * a ≤ n * (2 * d) + d)
      × (n * (2 * d) ≤ 2 * a + d)
      × ((n ≡ 0) ↔ (2 * a ≤ d))
observe_bounds w t h =
    let fine = passed (Weight.finite w) t h in
    let n = round_half_even (pos_part w.coefficient) w.places in
    let same : t ≡ pos n = returns-inj t (pos n) (sym h ∙ observe_passed w fine) in
    let below : is_above_limit w ≡ false = ground arith in
    let (fits, low, high, vanishes) =
      rounded_weight (pos_part w.coefficient) w.places (within_limit w below) in
    rw same (
      refl,
      fits,
      low,
      high,
      (λ z. nothing (pos_part w.coefficient * 1000) (10 ^ w.places) n low z, vanishes),
    )
