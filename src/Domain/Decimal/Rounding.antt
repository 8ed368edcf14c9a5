-- ===== src/Domain/Decimal/Rounding.antt =====
-- What `quantize_tons` does to a weight of any precision.
use native.Mathlib.Nat.{div-add-mod', mod-lt, pow-suc}
use timber_ops.Prelude.{ℕ, zero, suc, ◌+◌, ◌*◌, ◌^◌, ◌≤◌, ◌<◌, ◌≡◌, arith}
use timber_ops.Prelude.Int.{ℤ}
use timber_ops.Domain.Errors.{ok}
use timber_ops.Domain.Decimal.{
  Decimal, Tons, magnitude, with_sign, precision_limit, round_half_up, quantize_tons,
}

pub pow_pos : (p : ℕ) → 0 < 10 ^ p
pow_pos zero = omega arith
pow_pos (suc p) = rw pow-suc (omega (arith, pow_pos p))

-- rounding is within half a unit, and a half goes up
round_half_up_bounds :
    (n p : ℕ)
    → (2 * (n * 1000) < round_half_up n p * (2 * 10 ^ p) + 10 ^ p)
      × (round_half_up n p * (2 * 10 ^ p) ≤ 2 * (n * 1000) + 10 ^ p)
unfolding round_half_up
round_half_up_bounds n p =
    let d : ℕ = 2 * 10 ^ p in
    let a : ℕ = 2 * (n * 1000) + 10 ^ p in
    let e = div-add-mod' a d in
    let l = mod-lt a {m = d} (omega (arith, pow_pos p)) in
    (omega (arith, e, l, pow_pos p), omega (arith, e, l, pow_pos p))

magnitude-with_sign : (a : ℤ) (n : ℕ) → magnitude (with_sign a n) ≡ n
magnitude-with_sign a n = ground arith

pub quantize_tons-eq-ok :
    (x : Decimal) (t : Tons)
    → quantize_tons x ≡ ok t
    → let n = round_half_up (magnitude x.coefficient) x.places in
      (t ≡ with_sign x.coefficient n) × (magnitude t ≡ n) × (n < precision_limit)
unfolding quantize_tons
quantize_tons-eq-ok x t h =
    let n = round_half_up (magnitude x.coefficient) x.places in
    ground (arith, magnitude-with_sign x.coefficient n)

pub magnitude-quantize_tons :
    (x : Decimal) (t : Tons) → quantize_tons x ≡ ok t → magnitude t < precision_limit
magnitude-quantize_tons x t h = omega (arith, quantize_tons-eq-ok x t h)

-- The rounded weight keeps its sign, and its size in thousandths is the one nearest to the exact
-- size: less than half a thousandth below it, at most half a thousandth above it.
pub quantize_tons_nearest :
    (x : Decimal) (t : Tons)
    → quantize_tons x ≡ ok t
    → (2 * (magnitude x.coefficient * 1000) < magnitude t * (2 * 10 ^ x.places) + 10 ^ x.places)
      × (magnitude t * (2 * 10 ^ x.places) ≤ 2 * (magnitude x.coefficient * 1000) + 10 ^ x.places)
      × (t ≡ with_sign x.coefficient (magnitude t))
      × (magnitude t < precision_limit)
quantize_tons_nearest x t h =
    let (signed, size, fits) = quantize_tons-eq-ok x t h in
    let (low, high) = round_half_up_bounds (magnitude x.coefficient) x.places in
    (rw size low, rw size high, rw size signed, rw size fits)
