-- ===== src/Prelude/Sorting.antt =====
-- SQL's ORDER BY: an insertion sort that keeps equal rows in their order.
use mathlib.Core.List.{List, [], ◌∷◌, Perm}
use mathlib.Core.List.Perm
use mathlib.Core.Path.{◌≡◌, refl}
use mathlib.Core.Bool.{Bool, true, false, ◌&&◌, ◌||◌}
use native.Mathlib.Omega.{arith}
use timber_ops.Prelude.Lists.{all, any}
use mathlib.Core.Logic.{inl, inr}
use timber_ops.Prelude.Tests.{if◌then◌else◌, Bool-cases}

module _ {ℓ} {A : Type ℓ} (le : A → A → Bool) where
  unfoldable pub insert_ordered : A → List A → List A
  insert_ordered x [] = x ∷ []
  insert_ordered x (y ∷ ys) =
      let rest = insert_ordered x ys in if le x y then x ∷ y ∷ ys else y ∷ rest

  unfoldable pub order_by : List A → List A
  unfolding insert_ordered
  order_by [] = []
  order_by (x ∷ xs) = insert_ordered x (order_by xs)

  insert_ordered-perm : (x : A) (ys : List A) → Perm (insert_ordered x ys) (x ∷ ys)
  unfolding insert_ordered
  insert_ordered-perm x [] = Perm.refl (x ∷ [])
  insert_ordered-perm x (y ∷ ys) = elim (Bool-cases (le x y)) [
    | inl first ↦ rw first (Perm.refl (x ∷ y ∷ ys))
    | inr later ↦ rw later (Perm.trans (Perm.cons y (insert_ordered-perm x ys)) (Perm.swap x y ys))
  ]

  -- Ordering loses and invents no row.
  pub order_by-perm : (xs : List A) → Perm (order_by xs) xs
  unfolding order_by
  order_by-perm [] = Perm.refl []
  order_by-perm (x ∷ xs) =
      Perm.trans (insert_ordered-perm x (order_by xs)) (Perm.cons x (order_by-perm xs))

  -- No row stands behind one that it should precede.
  abbrev pub BeforeAll : A → List A → Type 0
  BeforeAll x [] = Unit
  BeforeAll x (y ∷ ys) = (le x y ≡ true) × BeforeAll x ys

  abbrev pub IsOrdered : List A → Type 0
  IsOrdered [] = Unit
  IsOrdered (x ∷ xs) = BeforeAll x xs × IsOrdered xs

  module _ (total : (x y : A) → le x y ≡ false → le y x ≡ true)
      (trans : (x y z : A) → le x y ≡ true → le y z ≡ true → le x z ≡ true) where
    BeforeAll-trans : (x y : A) (zs : List A) → le x y ≡ true → BeforeAll y zs → BeforeAll x zs
    BeforeAll-trans x y [] h b = tt
    BeforeAll-trans x y (z ∷ zs) h b = (trans x y z h b.0, BeforeAll-trans x y zs h b.1)

    BeforeAll-insert :
        (y x : A) (ys : List A) → le y x ≡ true → BeforeAll y ys → BeforeAll y (insert_ordered x ys)
    unfolding insert_ordered
    BeforeAll-insert y x [] h b = (h, tt)
    BeforeAll-insert y x (z ∷ zs) h b = elim (Bool-cases (le x z)) [
      | inl first ↦ rw first (h, b)
      | inr later ↦ rw later (b.0, BeforeAll-insert y x zs h b.1)
    ]

    insert_ordered-IsOrdered :
        (x : A) (ys : List A) → IsOrdered ys → IsOrdered (insert_ordered x ys)
    unfolding insert_ordered
    insert_ordered-IsOrdered x [] o = (tt, tt)
    insert_ordered-IsOrdered x (y ∷ ys) o = elim (Bool-cases (le x y)) [
      | inl first ↦ rw first ((first, BeforeAll-trans x y ys first o.0), o)
      | inr later ↦
          rw later
            (BeforeAll-insert y x ys (total x y later) o.0, insert_ordered-IsOrdered x ys o.1)
    ]

    pub order_by-IsOrdered : (xs : List A) → IsOrdered (order_by xs)
    unfolding order_by
    order_by-IsOrdered [] = tt
    order_by-IsOrdered (x ∷ xs) = insert_ordered-IsOrdered x (order_by xs) (order_by-IsOrdered xs)

  all-insert_ordered :
      (p : A → Bool) (x : A) (ys : List A) → all p (insert_ordered x ys) ≡ (p x && all p ys)
  unfolding insert_ordered
  all-insert_ordered p x [] = refl
  all-insert_ordered p x (y ∷ ys) = ground (arith, all-insert_ordered p x ys)

  pub all-order_by : (p : A → Bool) (xs : List A) → all p (order_by xs) ≡ all p xs
  unfolding order_by
  all-order_by p [] = refl
  all-order_by p (x ∷ xs) = ground (arith, all-insert_ordered p x (order_by xs), all-order_by p xs)

  any-insert_ordered :
      (p : A → Bool) (x : A) (ys : List A) → any p (insert_ordered x ys) ≡ (p x || any p ys)
  unfolding insert_ordered
  any-insert_ordered p x [] = refl
  any-insert_ordered p x (y ∷ ys) = ground (arith, any-insert_ordered p x ys)

  pub any-order_by : (p : A → Bool) (xs : List A) → any p (order_by xs) ≡ any p xs
  unfolding order_by
  any-order_by p [] = refl
  any-order_by p (x ∷ xs) = ground (arith, any-insert_ordered p x (order_by xs), any-order_by p xs)
