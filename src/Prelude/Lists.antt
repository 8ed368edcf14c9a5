-- ===== src/Prelude/Lists.antt =====
-- Lists with Boolean tests, measured by native numbers.
use Prim.Native.Nat.{ℕ, zero, suc, ◌+◌, max}
use mathlib.Core.Path.{◌≡◌, refl}
use mathlib.Core.Bool.{Bool, true, false, not, ◌&&◌, ◌||◌}
use mathlib.Core.List.{List, [], ◌∷◌, ◌++◌, map}
use mathlib.Core.Option.{Option, none, some}
use native.Mathlib.Omega.{arith}
use timber_ops.Prelude.Tests.{if◌then◌else◌}

module _ {ℓ} {A : Type ℓ} where
  abbrev pub length : List A → ℕ
  length [] = 0
  length (x ∷ xs) = suc (length xs)

  pub length-append : (xs ys : List A) → length (xs ++ ys) ≡ length xs + length ys
  length-append [] ys = omega arith
  length-append (x ∷ xs) ys = omega (arith, length-append xs ys)

  abbrev pub all : (A → Bool) → List A → Bool
  all p [] = true
  all p (x ∷ xs) = p x && all p xs

  abbrev pub any : (A → Bool) → List A → Bool
  any p [] = false
  any p (x ∷ xs) = p x || any p xs

  -- SQL's WHERE.
  abbrev pub where_ : (A → Bool) → List A → List A
  where_ p [] = []
  where_ p (x ∷ xs) = let rest = where_ p xs in if p x then x ∷ rest else rest

  -- The first row that passes, SQL's LIMIT 1.
  abbrev pub first : (A → Bool) → List A → Option A
  first p [] = none
  first p (x ∷ xs) = let rest = first p xs in if p x then some x else rest

  -- A uniqueness constraint.
  abbrev pub distinct : (A → A → Bool) → List A → Bool
  distinct same [] = true
  distinct same (x ∷ xs) = not (any (same x) xs) && distinct same xs

abbrev pub maximum : List ℕ → ℕ
maximum [] = 0
maximum (x ∷ xs) = max x (maximum xs)

pub where_-append :
    {A : Type 0} (p : A → Bool) (xs ys : List A) → where_ p (xs ++ ys) ≡ where_ p xs ++ where_ p ys
where_-append p [] ys = refl
where_-append p (x ∷ xs) ys = ground (arith, where_-append p xs ys)

pub map-append :
    {A B : Type 0} (f : A → B) (xs ys : List A) → map f (xs ++ ys) ≡ map f xs ++ map f ys
map-append f [] ys = refl
map-append f (y ∷ xs) ys = ground (arith, map-append f xs ys)

pub maximum-append : (xs : List ℕ) (n : ℕ) → maximum (xs ++ n ∷ []) ≡ max (maximum xs) n
maximum-append [] n = omega arith
maximum-append (x ∷ xs) n = omega (arith, maximum-append xs n)

-- 1, 2, ..., n.
abbrev pub up_to : ℕ → List ℕ
up_to zero = []
up_to (suc n) = up_to n ++ suc n ∷ []

pub maximum-up_to : (n : ℕ) → maximum (up_to n) ≡ n
maximum-up_to zero = refl
maximum-up_to (suc n) = omega (arith, maximum-append (up_to n) (suc n), maximum-up_to n)
