-- ===== src/Domain/Decimal.antt =====
-- Python's finite Decimals, and the rounding of backend/app/domain/weighing.py to 0.001 t.
pub mod Rounding
use timber_ops.Prelude.{ℕ, ◌+◌, ◌*◌, ◌/◌, ◌^◌, ◌<◌, ◌≡◌, arith, ltb, if◌then◌else◌}
use timber_ops.Prelude.Int.{ℤ, pos, negsuc, pos_part, neg_part, sub_ℕ}
use timber_ops.Domain.Errors.{Result, ok, err, invalid_operation}

-- The value is coefficient / 10 ^ places.
pub record Decimal : Type 0 where
  pub coefficient : ℤ
  pub places : ℕ

-- A number of tons with three places, counted in thousandths of a ton.
abbrev pub Tons : Type 0
Tons = ℤ

-- A fee with two places, counted in hundredths.
abbrev pub Money : Type 0
Money = ℤ

-- The precision of Python's default decimal context: more digits raise InvalidOperation.
abbrev pub precision_limit : ℕ
precision_limit = 10 ^ 28

-- The nearest number of thousandths; a half goes away from zero.
unfoldable pub round_half_up : ℕ → ℕ → ℕ
round_half_up n p = (2 * (n * 1000) + 10 ^ p) / (2 * 10 ^ p)

abbrev pub magnitude : ℤ → ℕ
magnitude a = pos_part a + neg_part a

-- a number with the sign of the first argument
abbrev pub with_sign : ℤ → ℕ → ℤ
with_sign (pos _) n = pos n
with_sign (negsuc _) n = sub_ℕ 0 n

unfoldable pub quantize_tons : Decimal → Result Tons
unfolding round_half_up
quantize_tons value =
    let n = round_half_up (magnitude value.coefficient) value.places in
    if ltb n precision_limit then ok (with_sign value.coefficient n) else err invalid_operation

-- A stored weight, read back as a Decimal.
abbrev pub of_tons : Tons → Decimal
of_tons t = record { coefficient = t; places = 3 }

-- A weight of three places is left alone.
pub quantize_tons-of_tons :
    (t : Tons) → magnitude t < precision_limit → quantize_tons (of_tons t) ≡ ok t
unfolding quantize_tons
quantize_tons-of_tons t h = ground arith

pub eq_of_quantize_tons-of_tons : (a t : Tons) → quantize_tons (of_tons a) ≡ ok t → t ≡ a
unfolding quantize_tons
eq_of_quantize_tons-of_tons a t h = ground arith
